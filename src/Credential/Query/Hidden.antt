-- ===== src/Credential/Query/Hidden.antt =====
-- What an answer shows of the protected values, and what it leaves of the tables.
use credential_proxy.Prelude.{
  ◌≡◌, refl, true, ◌||◌, Option, none, some, [], ◌∷◌, Text, Dict, codes, truthy, text_eq_iff,
  lookup, All, Unique, text_eq_refl, subst, Bool-cases, inl, inr, arith,
}
use credential_proxy.Token.{Tokens, Outcome, token, value_error, maybe_register}
use credential_proxy.Token.Valid.{IsValid}
use credential_proxy.Credential.Reply.{Response, Error, fail, value, full_entry}
use credential_proxy.Credential.Query.{
  Custom, KeepassEntry, Library, or_empty, Field, found, missing, raised, field_value, props_of,
  whole_entry, answer, field_reply, entry_with,
}
use credential_proxy.Credential.Query.Props.{
  Hides, field_of-found, IsCustom, field_value-password, field_value-custom, PropsHide, Kept,
  register-Hides, props_from-Kept,
}

-- Each item of a dict without a double key is looked up.
All-held :
    (d rest : Dict Custom)
    → Unique d
    → ((k : Text) (c : Custom) → lookup k d ≡ some c → lookup k rest ≡ some c)
    → All (λ e. lookup e.0 rest ≡ some e.1) d
unfolding lookup
All-held [] rest u h = tt
All-held ((k, c) ∷ d) rest u h = (
  h k c (rw text_eq_refl),
  All-held d rest u.1 (λ j x e. h j x (ground (arith, text_eq_iff j k))),
)

-- What a whole entry may show.
abbrev pub EntryHides : KeepassEntry → Response → Type 0
EntryHides e (full_entry r) =
    Hides (or_empty e.password) r.password × PropsHide e.custom r.custom_properties
EntryHides e _ = Unit

entry_with-EntryHides :
    (e : KeepassEntry) (ps : Dict Text) (s : Tokens)
    → IsValid s
    → PropsHide e.custom ps
    → EntryHides e (entry_with e ps (maybe_register (or_empty e.password) true s)).1
entry_with-EntryHides e ps s valid h = go (maybe_register (or_empty e.password) true s) (λ t r.
    register-Hides (record { installed = true; has_protected = true; has_custom = true }) e.custom
      (or_empty e.password) t s valid r)
  where
    go :
        (r : Tokens × Outcome)
        → ((t : Text) → r.1 ≡ token t → Hides (or_empty e.password) t)
        → EntryHides e (entry_with e ps r).1
    go (s', token t) hides = (hides t refl, h)
    go (s', value_error) hides = tt

nil-PropsHide : (custom : Dict Custom) → PropsHide custom []
unfolding lookup
nil-PropsHide custom k c v t e f g look = absurd (cc)

props_of-Kept :
    (lib : Library) (e : KeepassEntry) (s : Tokens)
    → IsValid s
    → Unique e.custom
    → Kept lib e.custom (props_of lib true e s)
props_of-Kept lib e s valid u = elim (Bool-cases (lib.has_protected || lib.has_custom)) [
  | inl b ↦ rw b (
      props_from-Kept lib e.custom e.custom [] s (All-held e.custom e.custom u (λ k c h. h)) valid
        (nil-PropsHide e.custom))
  | inr b ↦ rw b (nil-PropsHide e.custom, valid)
]

whole_entry-EntryHides :
    (lib : Library) (e : KeepassEntry) (s : Tokens)
    → IsValid s
    → Unique e.custom
    → EntryHides e (whole_entry lib true e s).1
unfolding whole_entry
whole_entry-EntryHides lib e s valid u = go (props_of lib true e s) (props_of-Kept lib e s valid u)
  where
    go :
        (r : Tokens × Option (Dict Text))
        → Kept lib e.custom r
        → EntryHides e
            (elim r.1 as (λ x. Tokens × Response) [
              | none ↦ (r.0, fail 500 Error.keepass_failed)
              | some ps ↦ entry_with e ps (maybe_register (or_empty e.password) true r.0)
            ]).1
    go (s', none) kept = tt
    go (s', some ps) kept = entry_with-EntryHides e ps s' kept.1 kept.0

field_reply-found : (field t : Text) (v : Field) → field_reply field v ≡ value t → v ≡ found t
field_reply-found field t (found u) e = cc
field_reply-found field t missing e = absurd (cc)
field_reply-found field t raised e = absurd (cc)

answer-field :
    (lib : Library) (e : KeepassEntry) (field t : Text) (s : Tokens)
    → truthy field ≡ true
    → (answer lib e field true s).1 ≡ value t
    → (field_value lib e field true s).1 ≡ found t
unfolding answer
answer-field lib e field t s full h = field_reply-found field t _ (rw full at h)

module _ (lib : Library) (e : KeepassEntry) (s : Tokens) (valid : IsValid s) where
  -- With valid tables, a tokenised answer for the field `password` is not the password, unless
  -- that is shorter than the minimum length.
  pub answer-password-Hides :
      (t : Text)
      → (answer lib e (codes "password") true s).1 ≡ value t
      → Hides (or_empty e.password) t
  answer-password-Hides t h = field_of-found (or_empty e.password) s t valid (
      subst (λ x. x.1 ≡ found t) (field_value-password lib e s)
        (answer-field lib e (codes "password") t s refl h))

  -- With valid tables and a library that tells which properties are protected, a tokenised
  -- answer for a protected custom property is not its text, unless that is shorter than the
  -- minimum length.
  pub answer-custom-Hides :
      (field : Text) (c : Custom) (v t : Text)
      → truthy field ≡ true
      → lib.has_protected ≡ true
      → IsCustom field
      → lookup field e.custom ≡ some c
      → c.text ≡ some v
      → c.protected ≡ true
      → (answer lib e field true s).1 ≡ value t
      → Hides v t
  answer-custom-Hides field c v t full has other held text protected h =
      field_of-found v s t valid (
        subst (λ x. x.1 ≡ found t)
          (field_value-custom lib e field c v s has other held text protected)
          (answer-field lib e field t s full h))

  -- With valid tables and an entry without a double property, a tokenised answer with the whole
  -- entry shows neither the password nor the text of a protected property, except those that are
  -- shorter than the minimum length.
  pub answer-EntryHides : Unique e.custom → EntryHides e (answer lib e [] true s).1
  unfolding answer
  answer-EntryHides u = whole_entry-EntryHides lib e s valid u
