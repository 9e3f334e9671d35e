-- ===== src/Registry/Rate.antt =====
-- `_check_auto_rate_limit` over any sequence of calls.
use credential_proxy.Prelude.{
  ℕ, ◌+◌, ◌≤◌, ◌≡◌, true, false, none, some, List, [], ◌∷◌, Text, text_eq, text_eq_iff, lookup,
  lookup-insert, lookup-insert_self, Bool-cases, arith, inl, inr, if◌then◌else◌, subst, ◌⊎◌,
}
use credential_proxy.Registry.{Registry, auto_rate_interval, check_auto_rate_limit}

-- `self._auto_rate_limits.get(name, 0.0)`
abbrev pub last_pass : Text → Registry → ℕ
last_pass name r = elim (lookup name r.auto_rate_limits) [ none ↦ 0 | some t ↦ t ]

-- The times at which `name` is let through, in a sequence of calls for any names.
unfoldable pub passes : Text → List (ℕ × Text) → Registry → List ℕ
unfolding text_eq
passes name [] r = []
passes name ((now, n) ∷ calls) r =
    let (r', ok) = check_auto_rate_limit now n r in
    let rest = passes name calls r' in
    if text_eq name n then (if ok then now ∷ rest else rest) else rest

-- Each time is at least one interval after the one before it, the first after `t`.
abbrev pub Spaced : ℕ → List ℕ → Type 0
Spaced t [] = Unit
Spaced t (x ∷ xs) = (t + auto_rate_interval ≤ x) × Spaced x xs

-- One call: a pass is one interval after the last one and becomes the last one; a refusal and
-- the calls for other names leave the last pass alone.
pub check_auto_rate_limit_pass :
    (now : ℕ) (name : Text) (r : Registry)
    → (check_auto_rate_limit now name r).1 ≡ true
    → (last_pass name r + auto_rate_interval ≤ now)
      × (last_pass name (check_auto_rate_limit now name r).0 ≡ now)
unfolding check_auto_rate_limit
check_auto_rate_limit_pass now name r h =
    ground (arith, lookup-insert_self name now r.auto_rate_limits)

check_auto_rate_limit_other :
    (now : ℕ) (n name : Text) (r : Registry)
    → text_eq name n ≡ false
    → last_pass name (check_auto_rate_limit now n r).0 ≡ last_pass name r
unfolding check_auto_rate_limit
check_auto_rate_limit_other now n name r h =
    ground (arith, lookup-insert n name now r.auto_rate_limits)

check_auto_rate_limit_refusal :
    (now : ℕ) (name : Text) (r : Registry)
    → (check_auto_rate_limit now name r).1 ≡ false
    → (check_auto_rate_limit now name r).0 ≡ r
unfolding check_auto_rate_limit
check_auto_rate_limit_refusal now name r h = ground arith

-- The list of passes after one more call.
step-Spaced :
    (name n : Text) (now : ℕ) (r : Registry) (xs : List ℕ)
    → Spaced (last_pass name (check_auto_rate_limit now n r).0) xs
    → Spaced (last_pass name r) (
        if text_eq name n then (if (check_auto_rate_limit now n r).1 then now ∷ xs else xs) else xs)
step-Spaced name n now r xs h = elim (Bool-cases (text_eq name n)) [
  | inr e ↦ rw e (rw (check_auto_rate_limit_other now n name r e) at h)
  | inl e ↦ same ((text_eq_iff name n).0 e) e (Bool-cases (check_auto_rate_limit now n r).1)
]
  where
    same :
        name ≡ n
        → text_eq name n ≡ true
        → ((check_auto_rate_limit now n r).1 ≡ true) ⊎ ((check_auto_rate_limit now n r).1 ≡ false)
        → Spaced (last_pass name r) (
            if text_eq name n
            then (if (check_auto_rate_limit now n r).1 then now ∷ xs else xs)
            else xs)
    same q e (inl ok) =
        let (far, last) = check_auto_rate_limit_pass now n r ok in
        rw (e, ok) (rw q far, subst (λ t. Spaced t xs) (ground arith) h)
    same q e (inr refusal) =
        rw (e, refusal)
          (subst (λ t. Spaced t xs) (ground (arith, check_auto_rate_limit_refusal now n r)) h)

-- Whatever the sequence of calls and their times, two automatic passes of one name are at least
-- one interval apart, and the first is one interval after the recorded last pass.
pub passes-Spaced :
    (name : Text) (calls : List (ℕ × Text)) (r : Registry)
    → Spaced (last_pass name r) (passes name calls r)
unfolding passes
passes-Spaced name [] r = tt
passes-Spaced name ((now, n) ∷ calls) r =
    step-Spaced name n now r (passes name calls (check_auto_rate_limit now n r).0)
      (passes-Spaced name calls (check_auto_rate_limit now n r).0)
