-- ===== src/JsonWalk/Shape.antt =====
-- What the walk of utils/json_walk.py may change.
use credential_proxy.Prelude.{
  ℕ, zero, suc, ◌+◌, ◌≡◌, refl, true, false, Option, some, Text, text_eq, text_eq_iff, strip, arith,
  Bool-cases, Option-cases, inl, inr, ◌⊎◌, subst, sym,
}
use credential_proxy.JsonWalk.{
  Json, Members, Items, text, object, array, other, no_members, member, no_items, item, Codec,
  strip_bom, opens, leaf, walk_with, walk_members, walk_items, walk_text, json_walk,
}

-- The same objects with the same keys in the same order, arrays of the same length, the same
-- numbers, Booleans and nulls; each text is related to the one in its place.
abbrev mutual
  pub SameShape : (Text → Text → Type 0) → Json → Json → Type 0
  SameShape P (text s) (text t) = P s t
  SameShape P (object ms) (object ns) = SameMembers P ms ns
  SameShape P (array xs) (array ys) = SameItems P xs ys
  SameShape P (other s) (other t) = s ≡ t
  SameShape P _ _ = ⊥

  pub SameMembers : (Text → Text → Type 0) → Members → Members → Type 0
  SameMembers P no_members no_members = Unit
  SameMembers P (member k v ms) (member j w ns) = (k ≡ j) × SameShape P v w × SameMembers P ms ns
  SameMembers P _ _ = ⊥

  pub SameItems : (Text → Text → Type 0) → Items → Items → Type 0
  SameItems P no_items no_items = Unit
  SameItems P (item x xs) (item y ys) = SameShape P x y × SameItems P xs ys
  SameItems P _ _ = ⊥

module _ (P : Text → Text → Type 0) (at : Text → Text) (each : (s : Text) → P s (at s)) where
  mutual
    unfolding walk_with walk_members walk_items

    walk_with-SameShape : (j : Json) → SameShape P j (walk_with at j)
    walk_with-SameShape (text s) = each s
    walk_with-SameShape (object ms) = walk_members-SameMembers ms
    walk_with-SameShape (array xs) = walk_items-SameItems xs
    walk_with-SameShape (other s) = refl

    walk_members-SameMembers : (ms : Members) → SameMembers P ms (walk_members at ms)
    walk_members-SameMembers no_members = tt
    walk_members-SameMembers (member k v ms) =
        (refl, walk_with-SameShape v, walk_members-SameMembers ms)

    walk_items-SameItems : (xs : Items) → SameItems P xs (walk_items at xs)
    walk_items-SameItems no_items = tt
    walk_items-SameItems (item x xs) = (walk_with-SameShape x, walk_items-SameItems xs)

module _ (codec : Codec) (leaf_fn : Text → Option Text) where
  -- The text stays, or it is what the function makes of it, or it looks like JSON itself.
  abbrev pub IsRewritten : Text → Text → Type 0
  IsRewritten s t = (t ≡ s) ⊎ ((leaf_fn s ≡ some t) ⊎ (opens (strip (strip_bom s)) ≡ true))

  leaf-IsRewritten : (s : Text) → IsRewritten s (leaf codec leaf_fn s)
  unfolding leaf
  leaf-IsRewritten s = elim (Option-cases (leaf_fn s)) [
    | inl e ↦ inl (ground arith)
    | inr (t, e) ↦ elim (Bool-cases (text_eq t s)) [
      | inl same ↦ inl (ground (arith, text_eq_iff t s))
      | inr new ↦ elim (Option-cases (codec.dumps (text t))) [
        | inl raised ↦ inl (ground arith)
        | inr (printed, f) ↦ inr (inl (ground arith))
      ]
    ]
  ]

  walk_text-plain :
      (levels : ℕ) (s : Text)
      → opens (strip (strip_bom s)) ≡ false
      → walk_text codec leaf_fn (suc levels) s ≡ leaf codec leaf_fn s
  unfolding walk_text
  walk_text-plain levels s h = rw h

  walk_text-IsRewritten : (levels : ℕ) (s : Text) → IsRewritten s (walk_text codec leaf_fn levels s)
  unfolding walk_text
  walk_text-IsRewritten zero s = leaf-IsRewritten s
  walk_text-IsRewritten (suc levels) s = elim (Bool-cases (opens (strip (strip_bom s)))) [
    | inl nested ↦ inr (inr nested)
    | inr plain ↦ subst (IsRewritten s) (sym (walk_text-plain levels s plain)) (leaf-IsRewritten s)
  ]

  -- The walk keeps the shape of the value, its keys, numbers, Booleans and nulls. A text that does
  -- not look like JSON stays or becomes what the function returns for it.
  pub json_walk-SameShape :
      (depth_limit : ℕ) (obj : Json)
      → SameShape IsRewritten obj (json_walk codec leaf_fn depth_limit obj)
  unfolding json_walk
  json_walk-SameShape depth_limit obj =
      walk_with-SameShape IsRewritten (walk_text codec leaf_fn (depth_limit + 1))
        (walk_text-IsRewritten (depth_limit + 1)) obj
