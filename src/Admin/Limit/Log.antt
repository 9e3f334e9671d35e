-- ===== src/Admin/Limit/Log.antt =====
-- The log of the calls that `_RateLimiter` of _admin.py lets through, and how its table stands for it.
use credential_proxy.Prelude.{
  ℕ, ◌-◌, ◌≤◌, ◌≡◌, refl, sym, ap, ◌∙◌, Bool, true, none, List, [], ◌∷◌, ◌++◌, Text, Dict, ltb,
  length, if◌then◌else◌, lookup, insert, erase, text_eq, text_eq_iff, arith, All, Bool-cases, inl,
  inr, ◌⊎◌, Unique, lookup-insert, lookup-erase, All-append, if_both,
}
use credential_proxy.Admin.Limit.{RateLimiter, recent, hits_of, is_stale, sweep}

-- The calls let through, per key, the first one first.
abbrev pub Log : Type 0
Log = Text → List ℕ

-- A call goes through when fewer than `limit` did within the window.
abbrev pub granted : ℕ → ℕ → Text → ℕ → Log → Bool
granted limit window key now log = ltb (length (recent window now (log key))) limit

abbrev pub note : Text → ℕ → Log → Log
note key now log k = if text_eq k key then log k ++ (now ∷ []) else log k

abbrev pub forget : Text → Log → Log
forget key log k = if text_eq k key then [] else log k

-- The times rise and end at `now` or before.
abbrev pub IsRising : ℕ → List ℕ → Type 0
IsRising now [] = Unit
IsRising now (t ∷ ts) = (t ≤ now) × All (λ u. t ≤ u) ts × IsRising now ts

pub IsRising-later :
    (now later : ℕ) (ts : List ℕ) → now ≤ later → IsRising now ts → IsRising later ts
IsRising-later now later [] h r = tt
IsRising-later now later (t ∷ ts) h r = (omega (arith, r.0), r.1, IsRising-later now later ts h r.2)

pub All-recent :
    (P : ℕ → Type 0) (window now : ℕ) (ts : List ℕ) → All P ts → All P (recent window now ts)
unfolding recent
All-recent P window now [] h = tt
All-recent P window now (t ∷ ts) h = elim (Bool-cases (ltb (now - t) window)) [
  | inl e ↦ rw e (h.0, All-recent P window now ts h.1)
  | inr e ↦ rw e (All-recent P window now ts h.1)
]

pub recent-IsRising :
    (window now : ℕ) (ts : List ℕ) → IsRising now ts → IsRising now (recent window now ts)
unfolding recent
recent-IsRising window now [] r = tt
recent-IsRising window now (t ∷ ts) r = elim (Bool-cases (ltb (now - t) window)) [
  | inl e ↦ rw e (r.0, All-recent (λ u. t ≤ u) window now ts r.1, recent-IsRising window now ts r.2)
  | inr e ↦ rw e (recent-IsRising window now ts r.2)
]

-- What is recent later was recent before.
pub recent-recent :
    (window now later : ℕ) (ts : List ℕ)
    → now ≤ later
    → recent window later (recent window now ts) ≡ recent window later ts
unfolding recent
recent-recent window now later [] h = refl
recent-recent window now later (t ∷ ts) h = ground (arith, recent-recent window now later ts h)

pub recent-append :
    (window now : ℕ) (ts us : List ℕ)
    → recent window now (ts ++ us) ≡ recent window now ts ++ recent window now us
unfolding recent
recent-append window now [] us = refl
recent-append window now (t ∷ ts) us = ground (arith, recent-append window now ts us)

-- If the last time is older than the window, so are all.
pub stale-recent :
    (window now : ℕ) (ts : List ℕ)
    → IsRising now ts
    → is_stale (now - window) ts ≡ true
    → recent window now ts ≡ []
unfolding recent is_stale
stale-recent window now [] r h = refl
stale-recent window now (t ∷ []) r h = ground arith
stale-recent window now (t ∷ u ∷ ts) r h =
    let rest = stale-recent window now (u ∷ ts) r.2 h in ground (arith, rest)

pub IsRising-snoc : (now : ℕ) (ts : List ℕ) → IsRising now ts → IsRising now (ts ++ (now ∷ []))
IsRising-snoc now [] r = (omega arith, tt, tt)
IsRising-snoc now (t ∷ ts) r =
    (r.0, All-append (λ u. t ≤ u) ts (now ∷ []) r.1 (r.0, tt), IsRising-snoc now ts r.2)

pub hits_of-insert :
    (k j : Text) (v : List ℕ) (d : Dict (List ℕ))
    → hits_of j (insert k v d) ≡ (if text_eq j k then v else hits_of j d)
unfolding hits_of
hits_of-insert k j v d = ground (arith, lookup-insert k j v d)

pub hits_of-erase :
    (k j : Text) (d : Dict (List ℕ))
    → hits_of j (erase k d) ≡ (if text_eq j k then [] else hits_of j d)
unfolding hits_of
hits_of-erase k j d = ground (arith, lookup-erase k j d)

pub lookup-none-sweep :
    (c : ℕ) (k : Text) (d : Dict (List ℕ)) → lookup k d ≡ none → lookup k (sweep c d) ≡ none
unfolding sweep lookup
lookup-none-sweep c k [] h = refl
lookup-none-sweep c k ((j, v) ∷ d) h = ground (arith, lookup-none-sweep c k d)

pub sweep-Unique : (c : ℕ) (d : Dict (List ℕ)) → Unique d → Unique (sweep c d)
unfolding sweep
sweep-Unique c [] u = tt
sweep-Unique c ((k, v) ∷ d) u =
    if_both Unique (is_stale c v) (sweep-Unique c d u.1)
      (lookup-none-sweep c k d u.0, sweep-Unique c d u.1)

-- A key is left as it was, or its stale times are gone.
pub hits_of-sweep :
    (c : ℕ) (key : Text) (d : Dict (List ℕ))
    → Unique d
    → (hits_of key (sweep c d) ≡ hits_of key d)
      ⊎ ((hits_of key (sweep c d) ≡ []) × (is_stale c (hits_of key d) ≡ true))
unfolding sweep hits_of lookup
hits_of-sweep c key [] u = inl refl
hits_of-sweep c key ((k, v) ∷ d) u =
    ground (arith, hits_of-sweep c key d u.1, text_eq_iff key k, lookup-none-sweep c k d u.0)

-- The limiter stands for the log: the same times are recent for each key.
pub record Stands (now : ℕ) (r : RateLimiter) (log : Log) : Type 0 where
  pub unique : Unique r.hits
  pub same :
      (key : Text) → recent r.window_s now (hits_of key r.hits) ≡ recent r.window_s now (log key)
  pub rising : (key : Text) → IsRising now (hits_of key r.hits)

pub Stands-later :
    (now later : ℕ) (r : RateLimiter) (log : Log)
    → now ≤ later
    → Stands now r log
    → Stands later r log
Stands-later now later r log h s = record {
  unique = s.unique;
  same = λ key.
      sym (recent-recent r.window_s now later (hits_of key r.hits) h)
      ∙ ap (recent r.window_s later) (s.same key)
      ∙ recent-recent r.window_s now later (log key) h;
  rising = λ key. IsRising-later now later (hits_of key r.hits) h (s.rising key);
}
