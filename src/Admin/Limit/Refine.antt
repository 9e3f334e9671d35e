-- ===== src/Admin/Limit/Refine.antt =====
-- `_RateLimiter` of _admin.py is a log of the calls let through, whatever it sweeps and forgets.
use credential_proxy.Prelude.{
  ℕ, ◌≤◌, ◌<◌, ◌≡◌, refl, ap, ◌∙◌, subst, Bool, List, [], ◌∷◌, Text, if◌then◌else◌, lookup, text_eq,
  Bool-cases, inl, inr, erase-Unique,
}
use credential_proxy.Admin.Limit.{RateLimiter, hits_of, allow, cleanup}
use credential_proxy.Admin.Limit.Log.{
  Log, granted, note, forget, hits_of-erase, Stands, Stands-later,
}
use credential_proxy.Admin.Limit.Step.{is_allowed, allow-Answers}

pub data Event : Type 0 where
  call : Text → ℕ → Event
  disconnect : Text → Event

-- The answers to the calls, in their order.
unfoldable pub answers : List Event → RateLimiter → List Bool
unfolding allow cleanup
answers [] r = []
answers (call key now ∷ es) r = let (r', v) = allow key now r in is_allowed v ∷ answers es r'
answers (disconnect key ∷ es) r = answers es (cleanup key r)

-- The answers by the log.
unfoldable pub log_answers : ℕ → ℕ → List Event → Log → List Bool
log_answers limit window [] log = []
log_answers limit window (call key now ∷ es) log =
    let ok = granted limit window key now log in
    ok ∷ log_answers limit window es (if ok then note key now log else log)
log_answers limit window (disconnect key ∷ es) log = log_answers limit window es (forget key log)

-- The clock does not run back.
abbrev pub InTime : ℕ → List Event → Type 0
InTime now [] = Unit
InTime now (call key at ∷ es) = (now ≤ at) × InTime at es
InTime now (disconnect key ∷ es) = InTime now es

cleanup-Stands :
    (key : Text) (now : ℕ) (r : RateLimiter) (log : Log)
    → Stands now r log
    → Stands now (cleanup key r) (forget key log)
unfolding cleanup
cleanup-Stands key now r log s = record {
  unique = erase-Unique key r.hits s.unique;
  same = λ j. elim (Bool-cases (text_eq j key)) [
    | inl e ↦ rw (hits_of-erase key j r.hits, e) refl
    | inr e ↦ rw (hits_of-erase key j r.hits, e) (s.same j)
  ];
  rising = λ j. elim (Bool-cases (text_eq j key)) [
    | inl e ↦ rw (hits_of-erase key j r.hits, e) tt
    | inr e ↦ rw (hits_of-erase key j r.hits, e) (s.rising j)
  ];
}

answers-refine :
    (es : List Event) (now limit window : ℕ) (r : RateLimiter) (log : Log)
    → r.limit ≡ limit
    → r.window_s ≡ window
    → 0 < limit
    → Stands now r log
    → InTime now es
    → answers es r ≡ log_answers limit window es log
unfolding answers log_answers cleanup
answers-refine [] now limit window r log el ew hl s t = refl
answers-refine (call key at ∷ es) now limit window r log el ew hl s t =
    let a = allow-Answers key at r log (rw el hl) (Stands-later now at r log t.0 s) in
    let same : granted r.limit r.window_s key at log ≡ granted limit window key at log =
      rw (el, ew) refl in
    ap (λ b. b ∷ answers es (allow key at r).0) (a.answer ∙ same)
    ∙ ap (◌∷◌ (granted limit window key at log)) (
        answers-refine es at limit window (allow key at r).0 _ (a.limit ∙ el) (a.window ∙ ew) hl
          (subst (λ ok. Stands at (allow key at r).0 (if ok then note key at log else log)) same
            a.stands)
          t.1)
answers-refine (disconnect key ∷ es) now limit window r log el ew hl s t =
    answers-refine es now limit window (cleanup key r) (forget key log) el ew hl
      (cleanup-Stands key now r log s) t

-- `_RateLimiter(limit, window_s)`
abbrev pub rate_limiter : ℕ → ℕ → RateLimiter
rate_limiter limit window = record {
  limit = limit;
  window_s = window;
  hits = [];
  calls = 0;
  last_sweep = 0;
}

-- `_RateLimiter` answers any sequence of calls and disconnections as a log does that forgets
-- nothing but disconnected addresses: a call goes through when fewer than `limit` calls for its
-- address did within the window. The sweeps, the dropped times and the separate branch for an
-- address without recent calls are not seen. The limit is at least 1 and the clock does not run
-- back.
pub rate_limiter-refines :
    (es : List Event) (limit window : ℕ)
    → 0 < limit
    → InTime 0 es
    → answers es (rate_limiter limit window) ≡ log_answers limit window es (λ key. [])
unfolding hits_of lookup
rate_limiter-refines es limit window hl t =
    answers-refine es 0 limit window (rate_limiter limit window) (λ key. []) refl refl hl
      (record { unique = tt; same = λ key. refl; rising = λ key. tt }) t
