-- ===== src/Metrics/Aggregate/Sync.antt =====
-- The counting of _metrics.py outside of `incr_event`: the evictions, the caches, the hits, the
-- credentials and the audit.
use credential_proxy.Prelude.{
  ℕ, ◌+◌, Option, none, some, [], ◌∷◌, Text, Dict, ◌==◌, codes, if◌then◌else◌, truthy,
}
use credential_proxy.Metrics.Counters.{Daily, new_daily, new_hourly, update_at, bump, bump_all}
use credential_proxy.Metrics.Aggregate.{Context, Collector}

abbrev pub other_upstream : Text
other_upstream = codes "other"

-- `incr_sync_lru`, and `incr_lru_evictions`.
unfoldable pub incr_lru : Text → Text → ℕ → ℕ → Collector → Collector
unfolding update_at new_daily new_hourly
incr_lru day hour cred pii c = record c {
  daily =
      update_at new_daily (day, other_upstream)
        (λ d. record d {
          cred_lru_evictions = d.cred_lru_evictions + cred;
          pii_lru_evictions = d.pii_lru_evictions + pii;
        })
        c.daily;
  hourly =
      update_at new_hourly (hour, other_upstream)
        (λ h. record h {
          cred_lru_evictions = h.cred_lru_evictions + cred;
          pii_lru_evictions = h.pii_lru_evictions + pii;
        })
        c.hourly;
}

-- `accumulate_pii_cache`: in a request, its context takes the counts.
unfoldable pub into_context : ℕ → ℕ → Context → Context
into_context hit miss x = record x { pii_hits = x.pii_hits + hit; pii_miss = x.pii_miss + miss }

-- `accumulate_pii_detected`, with a kind at least.
unfoldable pub detected_in_context : Dict ℕ → Context → Context
unfolding bump_all
detected_in_context by_kind x = record x { pii_by_type = bump_all by_kind x.pii_by_type }

-- `accumulate_cred`: nothing outside of a request.
unfoldable pub accumulate_cred : ℕ → ℕ → Option Context → Option Context
accumulate_cred hit miss none = none
accumulate_cred hit miss (some x) =
    some (record x { cred_hits = x.cred_hits + hit; cred_miss = x.cred_miss + miss })

-- `incr_sync_pii_cache`: into the context of the request, if there is one.
unfoldable pub incr_pii_cache :
    Text → Text → ℕ → ℕ → Option Context → Collector → Option Context × Collector
unfolding update_at new_daily new_hourly into_context
incr_pii_cache day hour hit miss (some x) c = (some (into_context hit miss x), c)
incr_pii_cache day hour hit miss none c = (
  none,
  record c {
    daily =
        update_at new_daily (day, other_upstream)
          (λ d. record d { pii_hits = d.pii_hits + hit; pii_miss = d.pii_miss + miss }) c.daily;
    hourly =
        update_at new_hourly (hour, other_upstream)
          (λ h. record h { pii_hits = h.pii_hits + hit; pii_miss = h.pii_miss + miss }) c.hourly;
  },
)

-- `incr_sync_pii_detected` where no request is running, or no kind is given.
unfoldable pub detected_outside : Text → Text → Dict ℕ → Collector → Collector
unfolding update_at new_daily new_hourly bump_all
detected_outside day hour by_kind c = record c {
  daily =
      update_at new_daily (day, other_upstream)
        (λ d. record d { pii_by_type = bump_all by_kind d.pii_by_type }) c.daily;
  hourly =
      update_at new_hourly (hour, other_upstream)
        (λ h. record h { pii_by_type = bump_all by_kind h.pii_by_type }) c.hourly;
}

-- `incr_sync_pii_detected`: into the context of the request, if there is one.
unfoldable pub incr_pii_detected :
    Text → Text → Dict ℕ → Option Context → Collector → Option Context × Collector
unfolding detected_outside detected_in_context
incr_pii_detected day hour [] ctx c = (ctx, detected_outside day hour [] c)
incr_pii_detected day hour (k ∷ by_kind) none c = (none, detected_outside day hour (k ∷ by_kind) c)
incr_pii_detected day hour (k ∷ by_kind) (some x) c =
    (some (detected_in_context (k ∷ by_kind) x), c)

-- A change of the entry of the day alone.
unfoldable pub count_daily : Text → (Daily → Daily) → Collector → Collector
unfolding update_at new_daily
count_daily day f c = record c { daily = update_at new_daily (day, other_upstream) f c.daily }

-- `incr_sync_placeholder_injected`, and `incr_placeholder_injected`.
unfoldable pub incr_placeholder_injected : Text → Collector → Collector
unfolding count_daily
incr_placeholder_injected day =
    count_daily day
      (λ d. record d { placeholder_prompt_injected = d.placeholder_prompt_injected + 1 })

-- `incr_truncated`
unfoldable pub incr_truncated : Text → Collector → Collector
unfolding count_daily
incr_truncated day = count_daily day (λ d. record d { truncated_total = d.truncated_total + 1 })

-- `incr_sync_cred`
unfoldable pub incr_cred : Text → ℕ → ℕ → Collector → Collector
unfolding count_daily
incr_cred day hit miss =
    count_daily day
      (λ d. record d { cred_hits = d.cred_hits + hit; cred_miss = d.cred_miss + miss })

-- `incr_sync_audit`; an empty rule is not counted.
unfoldable pub incr_audit : Text → Text → Text → Collector → Collector
unfolding count_daily bump
incr_audit day verdict rule = count_daily day (λ d. record d {
  audit_by_verdict = bump verdict 1 d.audit_by_verdict;
  audit_by_rule = if truthy rule then bump rule 1 d.audit_by_rule else d.audit_by_rule;
})

-- `incr_sync_audit_log_write_fail`, and `incr_audit_log_write_fail`.
unfoldable pub incr_audit_log_write_fail : Collector → Collector
incr_audit_log_write_fail c = record c { audit_log_write_fail = c.audit_log_write_fail + 1 }

-- `incr_sync_audit_approval`, and `incr_audit_approval_result`.
unfoldable pub incr_audit_approval : Text → Collector → Collector
unfolding bump
incr_audit_approval result c = record c {
  audit_approval_result = bump result 1 c.audit_approval_result;
}

-- `set_audit_pending_gauge`
unfoldable pub set_audit_pending_gauge : ℕ → ℕ → Collector → Collector
set_audit_pending_gauge pending overflows c = record c {
  audit_pending_total = pending;
  audit_hold_overflows = if overflows == 0 then c.audit_hold_overflows else overflows;
}
