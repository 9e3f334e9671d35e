-- ===== src/Metrics/Aggregate.antt =====
-- The counting of an event in `MetricsCollector` of _metrics.py. The times are given as the keys of
-- their day and hour.
pub mod Sync
pub mod Agree
pub mod Reach
use credential_proxy.Prelude.{
  ℕ, ◌+◌, Bool, true, false, ◌&&◌, ◌||◌, not, Option, none, some, List, [], ◌∷◌, ◌++◌, Text, Dict,
  ◌==◌, leb, ltb, codes, all, any, if◌then◌else◌, text_eq, truthy, length, drop, last_of,
}
use credential_proxy.Decimal.{decimal}
use credential_proxy.Metrics.Kind.{sanitize_kind, metrics_bucket}
use credential_proxy.Metrics.Counters.{
  Daily, Hourly, new_daily, new_hourly, Table, update_at, bump, bump_all, merge_tokens,
}

-- The counts of a request's own context, `_req_pii_var`.
pub record Context : Type 0 where
  pub pii_hits : ℕ
  pub pii_miss : ℕ
  pub cred_hits : ℕ
  pub cred_miss : ℕ
  pub pii_by_type : Dict ℕ

-- The arguments of `incr_event`; the summary is already redacted.
pub record Event : Type 0 where
  pub upstream : Text
  pub status : ℕ
  pub latency_ms : Option ℕ
  pub empty_guarded : Bool
  pub invalid_json_guarded : Bool
  pub client_gone : Bool
  pub exception : Bool
  pub sse_events : ℕ
  pub truncated : ℕ
  pub json_aware_success : ℕ
  pub json_leaf_fallback : ℕ
  pub json_full_fallback : ℕ
  pub placeholder_prompt_injected : Bool
  pub pii_hits : ℕ
  pub pii_miss : ℕ
  pub pii_found : Bool
  pub cred_hits : ℕ
  pub cred_miss : ℕ
  pub model : Text
  pub tokens : Dict (Dict ℕ)
  pub audit_by_verdict : Dict ℕ
  pub audit_by_rule : Dict ℕ
  pub pii_by_type : Dict ℕ
  pub request_id : Text
  pub tail : Text
  pub verdict : Text
  pub summary : Text

pub record Collector : Type 0 where
  pub daily : Table Daily
  pub hourly : Table Hourly
  -- the events with an id, of which RING_MAXLEN stay
  pub recent_events : List Event
  pub ring_maxlen : ℕ
  -- counters that are in no table
  pub audit_log_write_fail : ℕ
  pub audit_approval_result : Dict ℕ
  pub audit_pending_total : ℕ
  pub audit_hold_overflows : ℕ

-- The kinds of the event, sanitised.
unfoldable pub delta_kinds : (Text → Text) → Dict ℕ → Dict ℕ → Dict ℕ
unfolding sanitize_kind bump
delta_kinds lower [] delta = delta
delta_kinds lower ((k, n) ∷ by_type) delta =
    delta_kinds lower by_type (bump (sanitize_kind lower [] k) n delta)

abbrev pub or_context : ℕ → ℕ → ℕ
or_context n m = if n == 0 then m else n

-- The counts of the context come in where the caller gave none.
unfoldable pub with_context : Option Context → Event → Event
unfolding bump_all
with_context none e = e
with_context (some c) e =
    if truthy e.request_id
    then record e {
      pii_hits = or_context e.pii_hits c.pii_hits;
      pii_miss = or_context e.pii_miss c.pii_miss;
      cred_hits = or_context e.cred_hits c.cred_hits;
      cred_miss = or_context e.cred_miss c.cred_miss;
      pii_by_type = bump_all c.pii_by_type e.pii_by_type;
    }
    else e

abbrev pub is_model_char : ℕ → Bool
is_model_char c =
    (leb 48 c && leb c 57)
    || ((leb 65 c && leb c 90) || ((leb 97 c && leb c 122) || any (λ x. x == c) (codes "._/:@-")))

-- `re.fullmatch(r'[A-Za-z0-9._/:@\-]{1,64}', model)`
unfoldable pub known_model : Text → Text
known_model model =
    if truthy model && (leb (length model) 64 && all is_model_char model)
    then model
    else codes "unknown_model"

abbrev pub count_latency : Option ℕ → Dict ℕ → Dict ℕ
count_latency none d = d
count_latency (some ms) d = bump (metrics_bucket ms) 1 d

abbrev pub one_if : Bool → ℕ
one_if b = if b then 1 else 0

abbrev pub bump_if : Bool → Text → ℕ → Dict ℕ → Dict ℕ
bump_if b k n d = if b then bump k n d else d

-- What an event adds to its day.
unfoldable pub add_daily : Event → Daily → Daily
unfolding bump bump_all merge_tokens metrics_bucket decimal
add_daily e d = record {
  pii_by_type = bump_all e.pii_by_type d.pii_by_type;
  pii_hits = d.pii_hits + e.pii_hits;
  pii_miss = d.pii_miss + e.pii_miss;
  pii_requests = d.pii_requests + one_if e.pii_found;
  cred_hits = d.cred_hits + e.cred_hits;
  cred_miss = d.cred_miss + e.cred_miss;
  cred_lru_evictions = d.cred_lru_evictions;
  pii_lru_evictions = d.pii_lru_evictions;
  requests = d.requests + 1;
  requests_by_status = bump_if (not (e.sse_events == 0)) (codes "sse_events") e.sse_events (
      bump_if e.invalid_json_guarded (codes "invalid_json_guarded") 1 (
        bump_if e.empty_guarded (codes "empty_guarded") 1
          (bump (decimal e.status) 1 d.requests_by_status)));
  tokens = merge_tokens e.tokens d.tokens;
  audit_by_verdict = bump_all e.audit_by_verdict d.audit_by_verdict;
  audit_by_rule = bump_all e.audit_by_rule d.audit_by_rule;
  latency_counts = count_latency e.latency_ms d.latency_counts;
  placeholder_prompt_injected =
      d.placeholder_prompt_injected + one_if e.placeholder_prompt_injected;
  truncated_total = d.truncated_total + e.truncated;
  json_aware_success = d.json_aware_success + e.json_aware_success;
  json_leaf_fallback = d.json_leaf_fallback + e.json_leaf_fallback;
  json_full_fallback = d.json_full_fallback + e.json_full_fallback;
}

-- What an event adds to its hour.
unfoldable pub add_hourly : Event → Hourly → Hourly
unfolding bump bump_all merge_tokens metrics_bucket decimal
add_hourly e h = record {
  requests = h.requests + 1;
  requests_by_status = bump (decimal e.status) 1 h.requests_by_status;
  tokens = merge_tokens e.tokens h.tokens;
  latency_counts = count_latency e.latency_ms h.latency_counts;
  pii_by_type = bump_all e.pii_by_type h.pii_by_type;
  pii_hits = h.pii_hits + e.pii_hits;
  pii_miss = h.pii_miss + e.pii_miss;
  pii_requests = h.pii_requests + one_if e.pii_found;
  pii_lru_evictions = h.pii_lru_evictions;
  cred_lru_evictions = h.cred_lru_evictions;
}

-- The event as it is counted: kinds sanitised, context merged, model checked.
unfoldable pub counted : (Text → Text) → Option Context → Event → Event
unfolding delta_kinds with_context known_model
counted lower ctx e =
    let merged = with_context ctx (record e { pii_by_type = delta_kinds lower e.pii_by_type [] }) in
    record merged { model = known_model e.model }

-- The events kept: one without an id is not kept.
unfoldable pub recorded : Event → Collector → List Event
recorded e c =
    if truthy e.request_id
    then last_of c.ring_maxlen (c.recent_events ++ (e ∷ []))
    else c.recent_events

-- `incr_event`
unfoldable pub incr_event :
    (Text → Text) → Text → Text → Option Context → Event → Collector → Collector
unfolding counted add_daily add_hourly update_at new_daily new_hourly recorded
incr_event lower day hour ctx event c =
    let e = counted lower ctx event in
    record c {
      daily = update_at new_daily (day, e.upstream) (add_daily e) c.daily;
      hourly = update_at new_hourly (hour, e.upstream) (add_hourly e) c.hourly;
      recent_events = recorded e c;
    }
