-- ===== src/Admin/Limit.antt =====
-- `_RateLimiter` of _admin.py. The clock counts whole seconds.
pub mod Log
pub mod Step
pub mod Refine
use credential_proxy.Prelude.{
  ℕ, zero, suc, ◌+◌, ◌-◌, ◌%◌, Bool, true, false, ◌&&◌, ◌||◌, Option, none, some, List, [], ◌∷◌,
  ◌++◌, Text, Dict, ◌==◌, ltb, leb, length, if◌then◌else◌, lookup, insert, erase, contains,
}

pub record RateLimiter : Type 0 where
  pub limit : ℕ
  pub window_s : ℕ
  pub hits : Dict (List ℕ)
  pub calls : ℕ
  pub last_sweep : ℕ

-- `[t for t in lst if now - t < window]`
unfoldable pub recent : ℕ → ℕ → List ℕ → List ℕ
recent window now [] = []
recent window now (t ∷ ts) =
    let rest = recent window now ts in if ltb (now - t) window then t ∷ rest else rest

-- `self._hits.get(key, [])`
unfoldable pub hits_of : Text → Dict (List ℕ) → List ℕ
hits_of key hits = elim (lookup key hits) [ none ↦ [] | some ts ↦ ts ]

-- `not v or v[-1] < cutoff`
unfoldable pub is_stale : ℕ → List ℕ → Bool
is_stale cutoff [] = true
is_stale cutoff (t ∷ []) = ltb t cutoff
is_stale cutoff (t ∷ u ∷ ts) = is_stale cutoff (u ∷ ts)

-- The sweep: the stale keys are dropped.
unfoldable pub sweep : ℕ → Dict (List ℕ) → Dict (List ℕ)
unfolding is_stale
sweep cutoff [] = []
sweep cutoff ((k, ts) ∷ hits) =
    let rest = sweep cutoff hits in if is_stale cutoff ts then rest else (k, ts) ∷ rest

abbrev pub is_due : ℕ → RateLimiter → Bool
is_due now r = ((r.calls + 1) % 1000 == 0) || ltb r.window_s (now - r.last_sweep)

-- The front of `allow`: the count of calls and the sweep.
unfoldable pub swept : ℕ → RateLimiter → RateLimiter
unfolding sweep
swept now r =
    if is_due now r
    then record r { calls = r.calls + 1; last_sweep = now; hits = sweep (now - r.window_s) r.hits }
    else record r { calls = r.calls + 1 }

-- What `allow` answers: yes, no with the seconds to wait, or the `IndexError` that `lst[0]` raises
-- for a limit of 0.
pub data Verdict : Type 0 where
  allowed : Verdict
  refused : ℕ → Verdict
  index_error : Verdict

-- The rest of `allow`, for the times that are left of the key's.
unfoldable pub decide : Text → ℕ → RateLimiter → List ℕ → RateLimiter × Verdict
decide key now r [] =
    if contains key r.hits
    then (record r { hits = insert key (now ∷ []) (erase key r.hits) }, allowed)
    else if leb r.limit 0
    then (r, index_error)
    else (record r { hits = insert key (now ∷ []) r.hits }, allowed)
decide key now r (t ∷ ts) =
    if leb r.limit (length (t ∷ ts))
    then (record r { hits = insert key (t ∷ ts) r.hits }, refused (r.window_s + t - now + 1))
    else (record r { hits = insert key (t ∷ (ts ++ (now ∷ []))) r.hits }, allowed)

-- `allow`
unfoldable pub allow : Text → ℕ → RateLimiter → RateLimiter × Verdict
unfolding decide swept recent hits_of
allow key now r =
    let s = swept now r in decide key now s (recent s.window_s now (hits_of key s.hits))

-- `cleanup`
unfoldable pub cleanup : Text → RateLimiter → RateLimiter
cleanup key r = record r { hits = erase key r.hits }
