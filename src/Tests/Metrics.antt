-- ===== src/Tests/Metrics.antt =====
-- The counting of _metrics.py on one event, and its queue of snapshots.
use credential_proxy.Prelude.{
  ℕ, ◌≡◌, refl, true, false, none, some, List, [], ◌∷◌, Text, codes, arith,
}
use credential_proxy.Metrics.Kind.{sanitize_kind, metrics_bucket}
use credential_proxy.Metrics.Queue
use credential_proxy.Metrics.Queue.{Snapshots, Step, flush, drain, committed, failed, given_up}
use credential_proxy.Metrics.Queue.Accounts.{Keeps, run-Keeps}
use credential_proxy.Metrics.Aggregate.{Event, Collector, incr_event}
use credential_proxy.Metrics.Aggregate.Sync.{incr_lru}
use credential_proxy.Metrics.Aggregate.Agree.{Agree}
use credential_proxy.Metrics.Aggregate.Reach.{start, event, evicted, Counted-Agree}

abbrev same : Text → Text
same t = t

kinds :
    (sanitize_kind same [] (codes "email") ≡ codes "email")
    × (sanitize_kind same [] (codes "a__b") ≡ codes "custom_other")
    × (sanitize_kind same (codes "badge" ∷ []) (codes "badge") ≡ codes "badge")
unfolding sanitize_kind
kinds = (refl, refl, refl)

buckets :
    (metrics_bucket 10 ≡ codes "10")
    × (metrics_bucket 11 ≡ codes "25")
    × (metrics_bucket 10001 ≡ codes "inf")
unfolding metrics_bucket credential_proxy.Decimal.decimal
buckets = (refl, refl, refl)

abbrev empty_queue : Snapshots ℕ
empty_queue = record {
  queue = [];
  maxsize = 2;
  dropped = 0;
  sqlite_ok = true;
  written = [];
  unwritten = [];
  found_empty = 0;
}

-- The third snapshot finds the queue full, and the writer empties it before `get_nowait`.
abbrev steps : List (Step ℕ)
steps =
    flush ((1, []) ∷ (2, []) ∷ (3, committed ∷ failed ∷ []) ∷ [])
    ∷ drain (given_up ∷ [])
    ∷ flush ((4, []) ∷ [])
    ∷ []

raced :
    let q = Queue.run steps empty_queue in
    (q.queue ≡ 4 ∷ []) × (q.written ≡ 1 ∷ []) × (q.unwritten ≡ 2 ∷ 3 ∷ []) × (q.dropped ≡ 1)
unfolding Queue.run
raced = (refl, refl, refl, refl)

run-Keeps_example : Keeps (Queue.handed steps) empty_queue (Queue.run steps empty_queue)
run-Keeps_example = run-Keeps steps empty_queue (omega arith) (omega arith)

abbrev visit : Event
visit = record {
  upstream = codes "api";
  status = 200;
  latency_ms = some 30;
  empty_guarded = false;
  invalid_json_guarded = false;
  client_gone = false;
  exception = false;
  sse_events = 3;
  truncated = 0;
  json_aware_success = 1;
  json_leaf_fallback = 0;
  json_full_fallback = 0;
  placeholder_prompt_injected = false;
  pii_hits = 2;
  pii_miss = 0;
  pii_found = true;
  cred_hits = 0;
  cred_miss = 0;
  model = codes "a model";
  tokens = [];
  audit_by_verdict = [];
  audit_by_rule = [];
  pii_by_type = (codes "email", 2) ∷ [];
  request_id = codes "r1";
  tail = [];
  verdict = [];
  summary = [];
}

abbrev empty_collector : Collector
empty_collector = record {
  daily = [];
  hourly = [];
  recent_events = [];
  ring_maxlen = 2;
  audit_log_write_fail = 0;
  audit_approval_result = [];
  audit_pending_total = 0;
  audit_hold_overflows = 0;
}

abbrev after : Collector
after =
    incr_lru (codes "d") (codes "h") 1 0
      (incr_event same (codes "d") (codes "h") none visit empty_collector)

Counted-Agree_example : Agree (codes "api") after.daily after.hourly
Counted-Agree_example =
    Counted-Agree same after (codes "api")
      (evicted (codes "d") (codes "h") 1 0 (event (codes "d") (codes "h") none visit (start 2)))
