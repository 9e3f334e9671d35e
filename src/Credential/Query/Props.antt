-- ===== src/Credential/Query/Props.antt =====
-- What the loop over the custom properties of an entry hides (_credential.py).
use credential_proxy.Prelude.{
  ◌≤◌, ◌<◌, ltb, ◌≡◌, ◌≢◌, refl, Bool, true, false, ◌||◌, not, Option, none, some, [], ◌∷◌, Text,
  Dict, codes, truthy, length, text_eq, text_eq_iff, lookup, insert, lookup-insert, All, Bool-cases,
  Option-cases, inl, inr, ◌⊎◌, arith,
}
use credential_proxy.Token.{
  Tokens, Outcome, token, value_error, secret_min_length, register_secret, maybe_register,
}
use credential_proxy.Token.Valid.{IsValid}
use credential_proxy.Token.Invariant.{register_secret-IsValid}
use credential_proxy.Token.History.{register_secret_hides}
use credential_proxy.Credential.Query.{
  Custom, KeepassEntry, Library, or_empty, found, field_of, field_value, add_prop, props_step,
  props_from,
}

-- `shown` stands for `secret` and is not it, unless the secret is too short for a token.
abbrev pub Hides : Text → Text → Type 0
Hides secret shown = (length secret < secret_min_length) ⊎ (shown ≢ secret)

pub Hides-intro :
    (secret shown : Text)
    → (secret_min_length ≤ length secret → shown ≢ secret)
    → Hides secret shown
Hides-intro secret shown h = elim (Bool-cases (ltb (length secret) secret_min_length)) [
  | inl short ↦ inl (ground arith)
  | inr long ↦ inr (h (ground arith))
]

pub maybe_register-IsValid :
    (v : Text) (b : Bool) (s : Tokens) → IsValid s → IsValid (maybe_register v b s).0
unfolding maybe_register
maybe_register-IsValid v true s h = register_secret-IsValid v s h
maybe_register-IsValid v false s h = h

pub field_of-found :
    (v : Text) (s : Tokens) (t : Text)
    → IsValid s
    → (field_of (maybe_register v true s)).1 ≡ found t
    → Hides v t
unfolding maybe_register
field_of-found v s t h e =
    Hides-intro v t (λ long. register_secret_hides v s t h long (outcome (register_secret v s) e))
  where
    outcome : (r : Tokens × Outcome) → (field_of r).1 ≡ found t → r.1 ≡ token t
    outcome (s', token u) e = cc
    outcome (s', value_error) e = absurd (cc)

-- `field` is none of the four that are built in.
abbrev pub IsCustom : Text → Type 0
IsCustom field =
    (text_eq field (codes "password") ≡ false)
    × (text_eq field (codes "username") ≡ false)
    × (text_eq field (codes "title") ≡ false)
    × (text_eq field (codes "url") ≡ false)

pub field_value-password :
    (lib : Library) (e : KeepassEntry) (s : Tokens)
    → field_value lib e (codes "password") true s
      ≡ field_of (maybe_register (or_empty e.password) true s)
unfolding field_value
field_value-password lib e s = refl

pub field_value-custom :
    (lib : Library) (e : KeepassEntry) (field : Text) (c : Custom) (v : Text) (s : Tokens)
    → lib.has_protected ≡ true
    → IsCustom field
    → lookup field e.custom ≡ some c
    → c.text ≡ some v
    → c.protected ≡ true
    → field_value lib e field true s ≡ field_of (maybe_register v true s)
unfolding field_value
field_value-custom lib e field c v s has other held text protected =
    rw (other.0, other.1, other.2, other.3)
      (rw (has, field_value)
        (rw (held, field_value) (rw (text, field_value) (rw (protected, field_value)))))

-- The properties collected so far hide the protected texts of the entry.
abbrev pub PropsHide : Dict Custom → Dict Text → Type 0
PropsHide custom props =
    (k : Text) (c : Custom) (v t : Text)
    → lookup k custom ≡ some c
    → c.text ≡ some v
    → c.protected ≡ true
    → lookup k props ≡ some t
    → Hides v t

module _ (lib : Library) (custom : Dict Custom) where
  pub insert-PropsHide :
      (k : Text) (c : Custom) (shown : Text) (props : Dict Text)
      → lookup k custom ≡ some c
      → ((v : Text) → c.text ≡ some v → c.protected ≡ true → Hides v shown)
      → PropsHide custom props
      → PropsHide custom (insert k shown props)
  insert-PropsHide k c shown props held hides h j d v t e f g look =
      elim (Bool-cases (text_eq j k)) [
        | inr other ↦ h j d v t e f g (ground (arith, lookup-insert k j shown props))
        | inl same ↦
            let at : j ≡ k = (text_eq_iff j k).0 same in
            let is : d ≡ c = ground arith in
            let what : t ≡ shown = ground (arith, lookup-insert k j shown props) in
            rw what (hides v (rw (← is) f) (rw (← is) g))
      ]

  -- What a step that returned leaves.
  abbrev pub Kept : Tokens × Option (Dict Text) → Type 0
  Kept (s, none) = Unit
  Kept (s, some out) = PropsHide custom out × IsValid s

  pub add_prop-Kept :
      (k : Text) (c : Custom) (v : Text) (props : Dict Text) (r : Tokens × Outcome)
      → lookup k custom ≡ some c
      → c.text ≡ some v
      → ((t : Text) → r.1 ≡ token t → Hides v t)
      → IsValid r.0
      → PropsHide custom props
      → Kept (add_prop k r props)
  add_prop-Kept k c v props (s, value_error) held text hides valid h = tt
  add_prop-Kept k c v props (s, token t) held text hides valid h = (
    insert-PropsHide k c t props held
        (λ w e p. let same : w ≡ v = ground arith in rw same (hides t refl)) h,
    valid,
  )

  pub register-Hides :
      (v t : Text) (s : Tokens) → IsValid s → (maybe_register v true s).1 ≡ token t → Hides v t
  unfolding maybe_register
  register-Hides v t s valid e = Hides-intro v t (λ long. register_secret_hides v s t valid long e)

  pub props_step-Kept :
      (k : Text) (c : Custom) (props : Dict Text) (s : Tokens)
      → lookup k custom ≡ some c
      → IsValid s
      → PropsHide custom props
      → Kept (props_step lib true k c props s)
  unfolding props_step
  props_step-Kept k c props s held valid h = elim (Option-cases c.text) [
    | inl e ↦ rw (e, props_step) (h, valid)
    | inr (v, e) ↦ elim (Bool-cases (truthy v)) [
      | inr f ↦ rw (e, props_step) (rw f (h, valid))
      | inl f ↦ elim (Bool-cases (c.protected || not lib.has_protected)) [
        | inl g ↦
            rw (e, props_step)
              (rw f (
                rw g (
                  add_prop-Kept k c v props (maybe_register v true s) held e
                    (λ t r. register-Hides v t s valid r) (maybe_register-IsValid v true s valid)
                    h)))
        | inr g ↦
            rw (e, props_step)
              (rw f (
                rw g (insert-PropsHide k c v props held (λ w x p. absurd (ground arith)) h, valid)))
      ]
    ]
  ]

  pub props_from-Kept :
      (cs : Dict Custom) (props : Dict Text) (s : Tokens)
      → All (λ e. lookup e.0 custom ≡ some e.1) cs
      → IsValid s
      → PropsHide custom props
      → Kept (props_from lib true cs props s)
  unfolding props_from
  props_from-Kept [] props s held valid h = (h, valid)
  props_from-Kept ((k, c) ∷ cs) props s held valid h =
      go (props_step lib true k c props s) (props_step-Kept k c props s held.0 valid h)
        (λ ps s' v p. props_from-Kept cs ps s' held.1 v p)
    where
      go :
          (r : Tokens × Option (Dict Text))
          → Kept r
          → ((ps : Dict Text) (s' : Tokens)
              → IsValid s'
              → PropsHide custom ps
              → Kept (props_from lib true cs ps s'))
          → Kept (elim r.1 [ none ↦ (r.0, none) | some props' ↦ props_from lib true cs props' r.0 ])
      go (s', none) kept next = tt
      go (s', some ps) kept next = next ps s' kept.1 kept.0
