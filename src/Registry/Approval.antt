-- ===== src/Registry/Approval.antt =====
-- What a verdict of `_check_auto_approve` means.
use credential_proxy.Prelude.{
  any-text_eq, ℕ, ◌≡◌, refl, Bool, true, false, Option, none, some, List, [], ◌∷◌, inl, inr, ◌⊎◌,
  Text, text_eq, text_eq_iff, truthy, lookup, values, Any, All, any, Bool-cases, arith, not,
  if◌then◌else◌,
}
use credential_proxy.Registry.Store.{Caller}
use credential_proxy.Registry.{
  Registry, approved, unmatched, in_grace_period, hash_matches, first_match, find_caller_by_hash,
  find_caller_by_path, check_entry_allowed, path_verdict, check_auto_approve,
}

-- The request's hash is the registration's, or its former one within the grace period.
abbrev pub HashFits : ℕ → Text → Caller → Type 0
HashFits now h c = (c.script_hash ≡ h) ⊎ ((in_grace_period now c ≡ true) × (c.script_hash_old ≡ h))

-- The white list: the entry is listed, with no fields, or the request names no field, or one
-- that is listed.
abbrev pub Permits : Caller → Text → Option Text → Type 0
Permits c entry_name field =
    (fs : List Text) × (lookup entry_name c.entries ≡ some fs)
    × ((fs ≡ []) ⊎ ((field ≡ none) ⊎ ((x : Text) × (field ≡ some x) × Any (λ y. y ≡ x) fs)))

check_entry_allowed-Permits :
    (c : Caller) (entry_name : Text) (field : Option Text)
    → check_entry_allowed c entry_name field ≡ true
    → Permits c entry_name field
unfolding check_entry_allowed
check_entry_allowed-Permits c entry_name field h =
    go c.enabled (lookup entry_name c.entries) refl field h
  where
    go :
        (b : Bool) (o : Option (List Text))
        → lookup entry_name c.entries ≡ o
        → (field : Option Text)
        → (if not b then false else elim o [
          | none ↦ false
          | some [] ↦ true
          | some (f ∷ fs) ↦ elim field [ none ↦ true | some x ↦ any (text_eq x) (f ∷ fs) ]
        ])
          ≡ true
        → Permits c entry_name field
    go false o e field h = absurd (cc)
    go true none e field h = absurd (cc)
    go true (some []) e field h = ([], e, inl refl)
    go true (some (f ∷ fs)) e none h = (f ∷ fs, e, inr (inl refl))
    go true (some (f ∷ fs)) e (some x) h =
        (f ∷ fs, e, inr (inr (x, refl, any-text_eq x (f ∷ fs) h)))

first_match_sound :
    (p : Caller → Bool) (cs : List Caller) {c : Caller}
    → first_match p cs ≡ some c
    → Any (λ x. x ≡ c) cs × (p c ≡ true)
unfolding first_match
first_match_sound p [] h = absurd (cc)
first_match_sound p (x ∷ cs) {c} h = elim (Bool-cases (p x)) [
  | inl e ↦ (inl (ground arith), ground arith)
  | inr e ↦ let (a, b) = first_match_sound p cs {c = c} (rw e at h) in (inr a, b)
]

first_match-none :
    (p : Caller → Bool) (cs : List Caller) → first_match p cs ≡ none → All (λ x. p x ≡ false) cs
unfolding first_match
first_match-none p [] h = tt
first_match-none p (x ∷ cs) h = elim (Bool-cases (p x)) [
  | inl e ↦ absurd (ground arith)
  | inr e ↦ (e, first_match-none p cs (rw e at h))
]

module _ (now : ℕ) (entry_name : Text) (field : Option Text) (h p : Text) (r : Registry) where
  hash_matches-HashFits :
      (c : Caller)
      → hash_matches now h p c ≡ true
      → (c.enabled ≡ true) × (c.script_path ≡ p) × HashFits now h c
  unfolding hash_matches
  hash_matches-HashFits c e = ground (
    arith,
    text_eq_iff c.script_hash h,
    text_eq_iff c.script_path p,
    text_eq_iff c.script_hash_old h,
  )

  approved_inv :
      {c : Caller}
      → check_auto_approve now entry_name field h p r ≡ approved c
      → (find_caller_by_hash now h p r ≡ some c) × (check_entry_allowed c entry_name field ≡ true)
  unfolding check_auto_approve path_verdict
  approved_inv e = ground arith

  -- A request is let through automatically only for an enabled registration of that script
  -- path, whose hash fits and whose white list permits the entry and the field.
  pub check_auto_approve_sound :
      {c : Caller}
      → check_auto_approve now entry_name field h p r ≡ approved c
      → Any (λ x. x ≡ c) (values r.callers)
        × (c.enabled ≡ true)
        × (c.script_path ≡ p)
        × HashFits now h c
        × Permits c entry_name field
  unfolding find_caller_by_hash
  check_auto_approve_sound {c} e =
      let (found, allowed) = approved_inv {c = c} e in
      let (held, fits) =
        first_match_sound (hash_matches now h p) (values r.callers) {c = c} found in
      let (on, path, hash) = hash_matches-HashFits c fits in
      (held, on, path, hash, check_entry_allowed-Permits c entry_name field allowed)

  -- If the request names a hash and the verdict is no registration's, no enabled registration
  -- fits it, and the one that the path leads to, if any, is disabled.
  pub check_auto_approve_complete :
      truthy h ≡ true
      → check_auto_approve now entry_name field h p r ≡ unmatched
      → All (λ x. hash_matches now h p x ≡ false) (values r.callers)
        × ((c : Caller) → find_caller_by_path p r ≡ some c → c.enabled ≡ false)
  unfolding check_auto_approve find_caller_by_hash path_verdict
  check_auto_approve_complete t e = (
    first_match-none (hash_matches now h p) (values r.callers) (ground arith),
    λ c found. ground arith,
  )
