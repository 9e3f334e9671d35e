-- ===== src/Prelude/Dicts.antt =====
-- A Python dict keyed by texts, as the list of its items in insertion order. Keys are unique in
-- every dict that is built from `[]` by `insert`, so `erase` drops the one item with the key.
use Prim.Native.Nat.{◌+◌, ◌≤◌, ◌<◌}
use mathlib.Core.Path.{◌≡◌, refl, subst}
use mathlib.Core.Logic.{inl, inr}
use mathlib.Core.Bool.{Bool, false}
use mathlib.Core.Option.{Option, none, some}
use mathlib.Core.List.{List, [], ◌∷◌, ◌++◌, map}
use native.Mathlib.Omega.{arith}
use credential_proxy.Prelude.Tests.{if◌then◌else◌, is_some, Option-cases, Bool-cases}
use credential_proxy.Prelude.Lists.{length, All, length-append}
use credential_proxy.Prelude.Texts.{Text, text_eq, text_eq_iff, text_eq_refl}

abbrev pub Dict {ℓ} : Type ℓ → Type ℓ
Dict V = List (Text × V)

module _ {ℓ} {V : Type ℓ} where
  -- `d.get(k)`
  unfoldable pub lookup : Text → Dict V → Option V
  lookup k [] = none
  lookup k ((j, v) ∷ d) = if text_eq k j then some v else lookup k d

  -- `k in d`
  abbrev pub contains : Text → Dict V → Bool
  contains k d = is_some (lookup k d)

  -- `d[k] = v`: an old key keeps its place, a new one goes last.
  unfoldable pub insert : Text → V → Dict V → Dict V
  insert k v [] = (k, v) ∷ []
  insert k v ((j, w) ∷ d) = if text_eq k j then (k, v) ∷ d else (j, w) ∷ insert k v d

  -- `d.pop(k, None)`
  unfoldable pub erase : Text → Dict V → Dict V
  erase k [] = []
  erase k ((j, w) ∷ d) = let rest = erase k d in if text_eq k j then rest else (j, w) ∷ rest

  -- `d.move_to_end(k)`
  unfoldable pub move_to_end : Text → Dict V → Dict V
  move_to_end k d = elim (lookup k d) [ none ↦ d | some v ↦ erase k d ++ (k, v) ∷ [] ]

  -- `d.values()`
  abbrev pub values : Dict V → List V
  values = map (λ e. e.1)

module _ {ℓ} {V : Type ℓ} (k j : Text) where
  pub lookup-insert :
      (v : V) (d : Dict V) → lookup j (insert k v d) ≡ (if text_eq j k then some v else lookup j d)
  unfolding lookup insert
  lookup-insert v [] = refl
  lookup-insert v ((i, w) ∷ d) =
      ground (arith, text_eq_iff j k, text_eq_iff k i, text_eq_iff j i, lookup-insert v d)

  pub lookup-erase :
      (d : Dict V) → lookup j (erase k d) ≡ (if text_eq j k then none else lookup j d)
  unfolding lookup erase
  lookup-erase [] = ground arith
  lookup-erase ((i, w) ∷ d) =
      ground (arith, text_eq_iff j k, text_eq_iff k i, text_eq_iff j i, lookup-erase d)

  pub lookup-append :
      (d e : Dict V) → lookup j (d ++ e) ≡ elim (lookup j d) [ none ↦ lookup j e | some v ↦ some v ]
  unfolding lookup
  lookup-append [] e = refl
  lookup-append ((i, w) ∷ d) e = ground (arith, lookup-append d e)

  -- A move changes the order and nothing that a lookup reads.
  pub lookup-move_to_end : (d : Dict V) → lookup j (move_to_end k d) ≡ lookup j d
  unfolding move_to_end lookup
  lookup-move_to_end d = elim (Option-cases (lookup k d)) [
    | inl e ↦ rw (e, move_to_end)
    | inr (v, e) ↦
        rw (e, move_to_end, lookup-append (erase k d))
          (ground (arith, text_eq_iff j k, lookup-erase d))
  ]

module _ {ℓ} {V : Type ℓ} (k : Text) where
  pub lookup-insert_self : (v : V) (d : Dict V) → lookup k (insert k v d) ≡ some v
  lookup-insert_self v d = rw (lookup-insert, text_eq_refl)

  pub lookup-erase_self : (d : Dict V) → lookup k (erase k d) ≡ none
  lookup-erase_self d = rw (lookup-erase, text_eq_refl)

  pub length-insert-le : (v : V) (d : Dict V) → length (insert k v d) ≤ length d + 1
  unfolding insert
  length-insert-le v [] = omega arith
  length-insert-le v (e ∷ d) = ground (arith, length-insert-le v d)

  pub length-erase-le : (d : Dict V) → length (erase k d) ≤ length d
  unfolding erase
  length-erase-le [] = omega arith
  length-erase-le (e ∷ d) = ground (arith, length-erase-le d)

  pub length-erase_head : (v : V) (d : Dict V) → length (erase k ((k, v) ∷ d)) ≤ length d
  unfolding erase
  length-erase_head v d = rw text_eq_refl (length-erase-le d)

module _ {ℓ} {V : Type ℓ} where
  -- No key stands twice.
  abbrev pub Unique : Dict V → Type ℓ
  Unique [] = Unit
  Unique ((k, v) ∷ d) = (lookup k d ≡ none) × Unique d

  pub insert-Unique : (k : Text) (v : V) (d : Dict V) → Unique d → Unique (insert k v d)
  unfolding insert lookup
  insert-Unique k v [] u = ground arith
  insert-Unique k v ((j, w) ∷ d) u =
      ground (arith, text_eq_iff k j, text_eq_iff j k, lookup-insert k j v d, insert-Unique k v d)

  pub erase-Unique : (k : Text) (d : Dict V) → Unique d → Unique (erase k d)
  unfolding erase
  erase-Unique k [] u = u
  erase-Unique k ((j, w) ∷ d) u =
      ground (arith, text_eq_iff j k, lookup-erase k j d, erase-Unique k d)

  -- A new key goes last.
  pub insert_absent :
      (k : Text) (v : V) (d : Dict V) → lookup k d ≡ none → insert k v d ≡ d ++ (k, v) ∷ []
  unfolding insert lookup
  insert_absent k v [] h = refl
  insert_absent k v ((j, w) ∷ d) h = ground (arith, insert_absent k v d)

module _ {ℓ} {V : Type ℓ} (P : Text × V → Type 0) where
  pub All-insert : (k : Text) (v : V) (d : Dict V) → P (k, v) → All P d → All P (insert k v d)
  unfolding insert
  All-insert k v [] p h = (p, tt)
  All-insert k v ((j, w) ∷ d) p h = elim (Bool-cases (text_eq k j)) [
    | inl e ↦ rw e (p, h.1)
    | inr e ↦ rw e (h.0, All-insert k v d p h.1)
  ]

  pub All-erase : (k : Text) (d : Dict V) → All P d → All P (erase k d)
  unfolding erase
  All-erase k [] h = h
  All-erase k ((j, w) ∷ d) h = elim (Bool-cases (text_eq k j)) [
    | inl e ↦ rw e (All-erase k d h.1)
    | inr e ↦ rw e (h.0, All-erase k d h.1)
  ]

  pub All-lookup : (k : Text) {v : V} (d : Dict V) → All P d → lookup k d ≡ some v → P (k, v)
  unfolding lookup
  All-lookup k [] h e = absurd (cc)
  All-lookup k {v} ((j, w) ∷ d) h e = elim (Bool-cases (text_eq k j)) [
    | inl at ↦ subst P (ground (arith, text_eq_iff k j)) h.0
    | inr off ↦ All-lookup k d h.1 (rw off at e)
  ]

module _ {ℓ} {V : Type ℓ} where
  pub erase_absent : (k : Text) (d : Dict V) → All (λ e. text_eq k e.0 ≡ false) (erase k d)
  unfolding erase
  erase_absent k [] = tt
  erase_absent k ((j, w) ∷ d) = elim (Bool-cases (text_eq k j)) [
    | inl e ↦ rw e (erase_absent k d)
    | inr e ↦ rw e (e, erase_absent k d)
  ]

module _ {ℓ} {V : Type ℓ} (k : Text) where
  pub length-erase_found :
      (d : Dict V) {v : V} → lookup k d ≡ some v → length (erase k d) < length d
  unfolding lookup erase
  length-erase_found [] h = absurd (cc)
  length-erase_found ((j, w) ∷ d) {v} h = elim (Bool-cases (text_eq k j)) [
    | inl e ↦ rw e (omega (arith, length-erase-le k d))
    | inr e ↦ rw e (omega (arith, length-erase_found d {v = v} (rw e at h)))
  ]

  pub length-move_to_end-le : (d : Dict V) → length (move_to_end k d) ≤ length d
  unfolding move_to_end
  length-move_to_end-le d = elim (Option-cases (lookup k d)) [
    | inl e ↦ rw (e, move_to_end) (omega arith)
    | inr (v, e) ↦
        rw (e, move_to_end)
          (omega (arith, length-append (erase k d) ((k, v) ∷ []), length-erase_found d e))
  ]
