-- ===== src/Metrics/Aggregate/Reach.antt =====
-- Whatever is counted by the operations of _metrics.py, the days and the hours agree.
use credential_proxy.Prelude.{
  ℕ, ◌+◌, ◌≡◌, refl, Option, none, some, [], ◌∷◌, Text, Dict, arith, if◌then◌else◌, truthy,
}
use credential_proxy.Metrics.Counters.{Daily, bump, bump_all}
use credential_proxy.Metrics.Aggregate.{
  Context, Event, Collector, counted, add_daily, add_hourly, incr_event, one_if,
}
use credential_proxy.Metrics.Aggregate.Sync.{
  incr_lru, incr_pii_cache, incr_pii_detected, detected_outside, other_upstream, count_daily,
  incr_placeholder_injected, incr_truncated, incr_cred, incr_audit, incr_audit_log_write_fail,
  incr_audit_approval, set_audit_pending_gauge,
}
use credential_proxy.Metrics.Aggregate.Agree.{total, Agree, Growth, update-Agree, daily-Agree}

-- The collectors that counting reaches, for any interleaving of the operations.
pub data Counted (lower : Text → Text) : Collector → Type 0 where
  start :
      (ring_maxlen : ℕ)
      → Counted lower (record {
        daily = [];
        hourly = [];
        recent_events = [];
        ring_maxlen = ring_maxlen;
        audit_log_write_fail = 0;
        audit_approval_result = [];
        audit_pending_total = 0;
        audit_hold_overflows = 0;
      })
  event :
      {c : Collector} (day hour : Text) (ctx : Option Context) (e : Event)
      → Counted lower c
      → Counted lower (incr_event lower day hour ctx e c)
  evicted :
      {c : Collector} (day hour : Text) (cred pii : ℕ)
      → Counted lower c
      → Counted lower (incr_lru day hour cred pii c)
  cached :
      {c : Collector} (day hour : Text) (hit miss : ℕ) (ctx : Option Context)
      → Counted lower c
      → Counted lower (incr_pii_cache day hour hit miss ctx c).1
  detected :
      {c : Collector} (day hour : Text) (by_kind : Dict ℕ) (ctx : Option Context)
      → Counted lower c
      → Counted lower (incr_pii_detected day hour by_kind ctx c).1
  injected :
      {c : Collector} (day : Text)
      → Counted lower c
      → Counted lower (incr_placeholder_injected day c)
  truncated : {c : Collector} (day : Text) → Counted lower c → Counted lower (incr_truncated day c)
  credential :
      {c : Collector} (day : Text) (hit miss : ℕ)
      → Counted lower c
      → Counted lower (incr_cred day hit miss c)
  audited :
      {c : Collector} (day verdict rule : Text)
      → Counted lower c
      → Counted lower (incr_audit day verdict rule c)
  log_failed : {c : Collector} → Counted lower c → Counted lower (incr_audit_log_write_fail c)
  approval :
      {c : Collector} (result : Text)
      → Counted lower c
      → Counted lower (incr_audit_approval result c)
  gauged :
      {c : Collector} (n overflows : ℕ)
      → Counted lower c
      → Counted lower (set_audit_pending_gauge n overflows c)

event-Growth : (e : Event) → Growth (add_daily e) (add_hourly e)
unfolding add_daily add_hourly
event-Growth e = record {
  requests = 1;
  pii_hits = e.pii_hits;
  pii_miss = e.pii_miss;
  pii_requests = one_if e.pii_found;
  cred_lru = 0;
  pii_lru = 0;
  of_daily = λ d. (refl, refl, refl, refl, omega arith, omega arith);
  of_hourly = λ h. (refl, refl, refl, refl, omega arith, omega arith);
}

event-Agree :
    (lower : Text → Text) (day hour : Text) (ctx : Option Context) (e : Event) (c : Collector)
    (u : Text)
    → Agree u c.daily c.hourly
    → Agree u (incr_event lower day hour ctx e c).daily (incr_event lower day hour ctx e c).hourly
unfolding incr_event
event-Agree lower day hour ctx e c u a =
    update-Agree u day hour (counted lower ctx e).upstream _ _ c.daily c.hourly
      (event-Growth (counted lower ctx e)) a

lru-Agree :
    (day hour : Text) (cred pii : ℕ) (c : Collector) (u : Text)
    → Agree u c.daily c.hourly
    → Agree u (incr_lru day hour cred pii c).daily (incr_lru day hour cred pii c).hourly
unfolding incr_lru
lru-Agree day hour cred pii c u a =
    update-Agree u day hour other_upstream
      (λ d. record d {
        cred_lru_evictions = d.cred_lru_evictions + cred;
        pii_lru_evictions = d.pii_lru_evictions + pii;
      })
      (λ h. record h {
        cred_lru_evictions = h.cred_lru_evictions + cred;
        pii_lru_evictions = h.pii_lru_evictions + pii;
      })
      c.daily c.hourly
      (record {
        requests = 0;
        pii_hits = 0;
        pii_miss = 0;
        pii_requests = 0;
        cred_lru = cred;
        pii_lru = pii;
        of_daily = λ d. (omega arith, omega arith, omega arith, omega arith, refl, refl);
        of_hourly = λ h. (omega arith, omega arith, omega arith, omega arith, refl, refl);
      })
      a

cache-Agree :
    (day hour : Text) (hit miss : ℕ) (ctx : Option Context) (c : Collector) (u : Text)
    → Agree u c.daily c.hourly
    → let r = (incr_pii_cache day hour hit miss ctx c).1 in Agree u r.daily r.hourly
unfolding incr_pii_cache
cache-Agree day hour hit miss (some x) c u a = a
cache-Agree day hour hit miss none c u a =
    update-Agree u day hour other_upstream
      (λ d. record d { pii_hits = d.pii_hits + hit; pii_miss = d.pii_miss + miss })
      (λ h. record h { pii_hits = h.pii_hits + hit; pii_miss = h.pii_miss + miss }) c.daily c.hourly
      (record {
        requests = 0;
        pii_hits = hit;
        pii_miss = miss;
        pii_requests = 0;
        cred_lru = 0;
        pii_lru = 0;
        of_daily = λ d. (omega arith, refl, refl, omega arith, omega arith, omega arith);
        of_hourly = λ h. (omega arith, refl, refl, omega arith, omega arith, omega arith);
      })
      a

outside-Agree :
    (day hour : Text) (by_kind : Dict ℕ) (c : Collector) (u : Text)
    → Agree u c.daily c.hourly
    → let r = detected_outside day hour by_kind c in Agree u r.daily r.hourly
unfolding detected_outside
outside-Agree day hour by_kind c u a =
    update-Agree u day hour other_upstream
      (λ d. record d { pii_by_type = bump_all by_kind d.pii_by_type })
      (λ h. record h { pii_by_type = bump_all by_kind h.pii_by_type }) c.daily c.hourly
      (record {
        requests = 0;
        pii_hits = 0;
        pii_miss = 0;
        pii_requests = 0;
        cred_lru = 0;
        pii_lru = 0;
        of_daily =
            λ d. (omega arith, omega arith, omega arith, omega arith, omega arith, omega arith);
        of_hourly =
            λ h. (omega arith, omega arith, omega arith, omega arith, omega arith, omega arith);
      })
      a

detected-Agree :
    (day hour : Text) (by_kind : Dict ℕ) (ctx : Option Context) (c : Collector) (u : Text)
    → Agree u c.daily c.hourly
    → let r = (incr_pii_detected day hour by_kind ctx c).1 in Agree u r.daily r.hourly
unfolding incr_pii_detected
detected-Agree day hour [] ctx c u a = outside-Agree day hour [] c u a
detected-Agree day hour (k ∷ by_kind) none c u a = outside-Agree day hour (k ∷ by_kind) c u a
detected-Agree day hour (k ∷ by_kind) (some x) c u a = a

count_daily-Agree :
    (day : Text) (f : Daily → Daily) (c : Collector) (u : Text)
    → ((d : Daily)
        → ((f d).requests ≡ d.requests)
          × ((f d).pii_hits ≡ d.pii_hits)
          × ((f d).pii_miss ≡ d.pii_miss)
          × ((f d).pii_requests ≡ d.pii_requests)
          × ((f d).cred_lru_evictions ≡ d.cred_lru_evictions)
          × ((f d).pii_lru_evictions ≡ d.pii_lru_evictions))
    → Agree u c.daily c.hourly
    → let r = count_daily day f c in Agree u r.daily r.hourly
unfolding count_daily
count_daily-Agree day f c u w a = daily-Agree u day other_upstream f c.daily c.hourly w a

-- After any interleaving of the operations that count, `incr_event` and the synchronous ones, at any times and in or outside of a request, the requests, hits, misses
-- and evictions of an upstream summed over the days are those summed over the hours.
pub Counted-Agree :
    (lower : Text → Text) (k : Collector) (u : Text) → Counted lower k → Agree u k.daily k.hourly
unfolding total incr_placeholder_injected incr_truncated incr_cred incr_audit
    incr_audit_log_write_fail incr_audit_approval set_audit_pending_gauge
Counted-Agree lower k u (start n) = record {
  requests = refl;
  pii_hits = refl;
  pii_miss = refl;
  pii_requests = refl;
  cred_lru = refl;
  pii_lru = refl;
}
Counted-Agree lower k u (event {c} day hour ctx e r) =
    event-Agree lower day hour ctx e c u (Counted-Agree lower c u r)
Counted-Agree lower k u (evicted {c} day hour cred pii r) =
    lru-Agree day hour cred pii c u (Counted-Agree lower c u r)
Counted-Agree lower k u (cached {c} day hour hit miss ctx r) =
    cache-Agree day hour hit miss ctx c u (Counted-Agree lower c u r)
Counted-Agree lower k u (detected {c} day hour by_kind ctx r) =
    detected-Agree day hour by_kind ctx c u (Counted-Agree lower c u r)
Counted-Agree lower k u (injected {c} day r) =
    count_daily-Agree day
      (λ d. record d { placeholder_prompt_injected = d.placeholder_prompt_injected + 1 }) c u
      (λ d. (refl, refl, refl, refl, refl, refl)) (Counted-Agree lower c u r)
Counted-Agree lower k u (truncated {c} day r) =
    count_daily-Agree day (λ d. record d { truncated_total = d.truncated_total + 1 }) c u
      (λ d. (refl, refl, refl, refl, refl, refl)) (Counted-Agree lower c u r)
Counted-Agree lower k u (credential {c} day hit miss r) =
    count_daily-Agree day
      (λ d. record d { cred_hits = d.cred_hits + hit; cred_miss = d.cred_miss + miss }) c u
      (λ d. (refl, refl, refl, refl, refl, refl)) (Counted-Agree lower c u r)
Counted-Agree lower k u (audited {c} day verdict rule r) =
    count_daily-Agree day
      (λ d. record d {
        audit_by_verdict = bump verdict 1 d.audit_by_verdict;
        audit_by_rule = if truthy rule then bump rule 1 d.audit_by_rule else d.audit_by_rule;
      })
      c u (λ d. (refl, refl, refl, refl, refl, refl)) (Counted-Agree lower c u r)
Counted-Agree lower k u (log_failed {c} r) = Counted-Agree lower c u r
Counted-Agree lower k u (approval {c} result r) = Counted-Agree lower c u r
Counted-Agree lower k u (gauged {c} n overflows r) = Counted-Agree lower c u r
