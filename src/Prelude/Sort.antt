-- ===== src/Prelude/Sort.antt =====
-- Python's stable `sort`, for an order given as a Boolean test.
use mathlib.Core.Path.{◌≡◌}
use mathlib.Core.Logic.{◌⊎◌, inl, inr}
use mathlib.Core.Bool.{Bool, true, false}
use mathlib.Core.List.{List, [], ◌∷◌}
use credential_proxy.Prelude.Tests.{if◌then◌else◌, Bool-cases}
use credential_proxy.Prelude.Lists.{All, Any}

module _ {A : Type 0} where
  -- `R` holds between each item and all that follow.
  abbrev pub Pairwise : (A → A → Type 0) → List A → Type 0
  Pairwise R [] = Unit
  Pairwise R (x ∷ xs) = All (R x) xs × Pairwise R xs

  pub All-mono : (P Q : A → Type 0) → ((x : A) → P x → Q x) → (xs : List A) → All P xs → All Q xs
  All-mono P Q f [] h = tt
  All-mono P Q f (x ∷ xs) h = (f x h.0, All-mono P Q f xs h.1)

module _ {A : Type 0} (le : A → A → Bool) where
  -- A new item goes in front of those with the same key.
  unfoldable pub insert_by : A → List A → List A
  insert_by w [] = w ∷ []
  insert_by w (x ∷ xs) = let rest = insert_by w xs in if le w x then w ∷ x ∷ xs else x ∷ rest

  -- Inserting from the last item on keeps the order of the items with the same key.
  unfoldable pub sort_by : List A → List A
  unfolding insert_by
  sort_by [] = []
  sort_by (w ∷ ws) = insert_by w (sort_by ws)

  -- Each item is in order with all that follow.
  abbrev pub Ordered : List A → Type 0
  Ordered [] = Unit
  Ordered (x ∷ xs) = All (λ y. le x y ≡ true) xs × Ordered xs

  All-insert_by : (P : A → Type 0) (w : A) (xs : List A) → P w → All P xs → All P (insert_by w xs)
  unfolding insert_by
  All-insert_by P w [] p h = (p, tt)
  All-insert_by P w (x ∷ xs) p h = elim (Bool-cases (le w x)) [
    | inl e ↦ rw e (p, h)
    | inr e ↦ rw e (h.0, All-insert_by P w xs p h.1)
  ]

  pub All-sort_by : (P : A → Type 0) (xs : List A) → All P xs → All P (sort_by xs)
  unfolding sort_by
  All-sort_by P [] h = h
  All-sort_by P (x ∷ xs) h = All-insert_by P x (sort_by xs) h.0 (All-sort_by P xs h.1)

  All-uninsert : (P : A → Type 0) (w : A) (xs : List A) → All P (insert_by w xs) → P w × All P xs
  unfolding insert_by
  All-uninsert P w [] h = h
  All-uninsert P w (x ∷ xs) h = elim (Bool-cases (le w x)) [
    | inl e ↦ rw e at h
    | inr e ↦
        let (px, rest) : P x × All P (insert_by w xs) = rw e at h in
        let (pw, pxs) = All-uninsert P w xs rest in (pw, (px, pxs))
  ]

  -- What holds of every item in order holds of every item.
  pub All-unsort : (P : A → Type 0) (xs : List A) → All P (sort_by xs) → All P xs
  unfolding sort_by
  All-unsort P [] h = h
  All-unsort P (x ∷ xs) h =
      let (px, rest) = All-uninsert P x (sort_by xs) h in (px, All-unsort P xs rest)

  module _ (total : (x y : A) → le x y ≡ false → le y x ≡ true)
      (trans : (x y z : A) → le x y ≡ true → le y z ≡ true → le x z ≡ true) where
    insert_by-Ordered : (w : A) (xs : List A) → Ordered xs → Ordered (insert_by w xs)
    unfolding insert_by
    insert_by-Ordered w [] h = (tt, tt)
    insert_by-Ordered w (x ∷ xs) h = elim (Bool-cases (le w x)) [
      | inl e ↦ rw e ((e, All-mono _ _ (λ y q. trans w x y e q) xs h.0), h)
      | inr e ↦
          rw e
            (All-insert_by (λ y. le x y ≡ true) w xs (total w x e) h.0, insert_by-Ordered w xs h.1)
    ]

    pub sort_by-Ordered : (xs : List A) → Ordered (sort_by xs)
    unfolding sort_by
    sort_by-Ordered [] = tt
    sort_by-Ordered (x ∷ xs) = insert_by-Ordered x (sort_by xs) (sort_by-Ordered xs)

  -- What is in the list is in the sorted list.
  module _ (P : A → Type 0) where
    Any-insert_by : (w : A) (xs : List A) → P w ⊎ Any P xs → Any P (insert_by w xs)
    unfolding insert_by
    Any-insert_by w [] h = h
    Any-insert_by w (x ∷ xs) h = elim (Bool-cases (le w x)) [
      | inl e ↦ rw e h
      | inr e ↦ rw e (elim h [
        | inl a ↦ inr (Any-insert_by w xs (inl a))
        | inr (inl b) ↦ inl b
        | inr (inr c) ↦ inr (Any-insert_by w xs (inr c))
      ])
    ]

    pub Any-sort_by : (xs : List A) → Any P xs → Any P (sort_by xs)
    unfolding sort_by
    Any-sort_by [] h = h
    Any-sort_by (x ∷ xs) h =
        Any-insert_by x (sort_by xs) (elim h [ inl a ↦ inl a | inr b ↦ inr (Any-sort_by xs b) ])

  -- A symmetric relation between any two items still holds between them in order.
  module _ (R : A → A → Type 0) (sym_R : (x y : A) → R x y → R y x) where
    insert_by-Pairwise :
        (w : A) (xs : List A) → All (R w) xs → Pairwise R xs → Pairwise R (insert_by w xs)
    unfolding insert_by
    insert_by-Pairwise w [] h p = (tt, tt)
    insert_by-Pairwise w (x ∷ xs) h p = elim (Bool-cases (le w x)) [
      | inl e ↦ rw e (h, p)
      | inr e ↦ rw e (All-insert_by (R x) w xs (sym_R w x h.0) p.0, insert_by-Pairwise w xs h.1 p.1)
    ]

    pub sort_by-Pairwise : (xs : List A) → Pairwise R xs → Pairwise R (sort_by xs)
    unfolding sort_by
    sort_by-Pairwise [] p = tt
    sort_by-Pairwise (x ∷ xs) p =
        insert_by-Pairwise x (sort_by xs) (All-sort_by (R x) xs p.0) (sort_by-Pairwise xs p.1)
