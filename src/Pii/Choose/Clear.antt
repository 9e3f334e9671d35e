-- ===== src/Pii/Choose/Clear.antt =====
-- The selected spans are clear of each other, in the order of the text, and cover every span.
use credential_proxy.Prelude.{
  ◌≤◌, ◌≡◌, refl, Bool, true, false, List, [], ◌∷◌, arith, All, Any, Bool-cases, inl, inr, ◌⊎◌, any,
  sort_by, Ordered, Pairwise, All-mono, All-sort_by, All-unsort, Any-sort_by, sort_by-Ordered,
  sort_by-Pairwise, subst, sym,
}
use credential_proxy.Pii.Span.{Span, Range, overlaps, overlaps_any}
use credential_proxy.Pii.Choose.{width, longer_first, earlier_first, choose, selected}

-- The ends are in order, as those of every match.
abbrev pub IsRange : Span → Type 0
IsRange x = x.start ≤ x.stop

abbrev range : Span → Range
range x = (x.start, x.stop)

-- Two spans that do not overlap, either way round.
abbrev Apart : Span → Span → Type 0
Apart x y =
    (overlaps x.start x.stop (range y) ≡ false)
    × ((overlaps y.start y.stop (range x) ≡ false) × ((x.start ≤ x.stop) × (y.start ≤ y.stop)))

overlaps_sym :
    (x y : Span)
    → IsRange x
    → IsRange y
    → overlaps x.start x.stop (range y) ≡ false
    → overlaps y.start y.stop (range x) ≡ false
unfolding overlaps
overlaps_sym x y hx hy h = ground arith

overlaps_self : (x : Span) → overlaps x.start x.stop (range x) ≡ true
unfolding overlaps
overlaps_self x = ground arith

-- `y` ends where `x` begins or before, or the other way round.
Apart-order : (x y : Span) → Apart x y → earlier_first x y ≡ true → x.stop ≤ y.start
unfolding overlaps
Apart-order x y h e = ground arith

pub any-false :
    {A : Type 0} (p : A → Bool) (r : A) (xs : List A)
    → any p xs ≡ false
    → Any (λ q. q ≡ r) xs
    → p r ≡ false
any-false p r [] h a = absurd a
any-false p r (x ∷ xs) h (inl e) = subst (λ q. p q ≡ false) e (ground arith)
any-false p r (x ∷ xs) h (inr a) = any-false p r xs (ground arith) a

choose_taken :
    (occ : List Range) (x : Span) (xs : List Span)
    → overlaps_any x.start x.stop occ ≡ true
    → choose occ (x ∷ xs) ≡ choose occ xs
unfolding choose
choose_taken occ x xs e = rw e refl

choose_new :
    (occ : List Range) (x : Span) (xs : List Span)
    → overlaps_any x.start x.stop occ ≡ false
    → choose occ (x ∷ xs) ≡ x ∷ choose (range x ∷ occ) xs
unfolding choose
choose_new occ x xs e = rw e refl

-- What is chosen overlaps nothing that was taken.
choose_free :
    (r : Range) (occ : List Range) (xs : List Span)
    → Any (λ q. q ≡ r) occ
    → All (λ y. overlaps y.start y.stop r ≡ false) (choose occ xs)
unfolding overlaps_any choose
choose_free r occ [] a = tt
choose_free r occ (x ∷ xs) a = elim (Bool-cases (overlaps_any x.start x.stop occ)) [
  | inl e ↦ rw e (choose_free r occ xs a)
  | inr e ↦
      rw e (any-false (overlaps x.start x.stop) r occ e a, choose_free r (range x ∷ occ) xs (inr a))
]

All-choose :
    (P : Span → Type 0) (occ : List Range) (xs : List Span) → All P xs → All P (choose occ xs)
unfolding choose
All-choose P occ [] h = tt
All-choose P occ (x ∷ xs) h = elim (Bool-cases (overlaps_any x.start x.stop occ)) [
  | inl e ↦ rw e (All-choose P occ xs h.1)
  | inr e ↦ rw e (h.0, All-choose P (range x ∷ occ) xs h.1)
]

All-both :
    {A : Type 0} (P Q : A → Type 0) (xs : List A) → All P xs → All Q xs → All (λ x. P x × Q x) xs
All-both P Q [] p q = tt
All-both P Q (x ∷ xs) p q = ((p.0, q.0), All-both P Q xs p.1 q.1)

choose-Apart : (occ : List Range) (xs : List Span) → All IsRange xs → Pairwise Apart (choose occ xs)
unfolding choose
choose-Apart occ [] h = tt
choose-Apart occ (x ∷ xs) h = elim (Bool-cases (overlaps_any x.start x.stop occ)) [
  | inl e ↦ rw (choose_taken occ x xs e) (choose-Apart occ xs h.1)
  | inr e ↦ rw (choose_new occ x xs e) (
    All-mono _ (Apart x) (λ y q. (overlaps_sym y x q.1 h.0 q.0, (q.0, (h.0, q.1))))
        (choose (range x ∷ occ) xs)
        (All-both _ _ _ (choose_free (range x) (range x ∷ occ) xs (inl refl))
          (All-choose IsRange (range x ∷ occ) xs h.1)),
    choose-Apart (range x ∷ occ) xs h.1,
  )
]

Apart-sym : (x y : Span) → Apart x y → Apart y x
Apart-sym x y h = (h.1.0, (h.0, (h.1.1.1, h.1.1.0)))

-- `y` overlaps `x` and is no shorter.
abbrev pub Covers : Span → Span → Type 0
Covers x y = (overlaps x.start x.stop (y.start, y.stop) ≡ true) × (width x ≤ width y)

later_covered :
    (occ : List Range) (xs : List Span) (x z : Span)
    → longer_first x z ≡ true
    → (overlaps_any z.start z.stop (range x ∷ occ) ≡ true)
      ⊎ Any (Covers z) (choose (range x ∷ occ) xs)
    → (overlaps_any z.start z.stop occ ≡ true)
      ⊎ (Covers z x ⊎ Any (Covers z) (choose (range x ∷ occ) xs))
unfolding overlaps_any
later_covered occ xs x z l (inr a) = inr (inr a)
later_covered occ xs x z l (inl a) = elim (Bool-cases (overlaps z.start z.stop (range x))) [
  | inl c ↦ inr (inl (c, ground arith))
  | inr c ↦ inl (rw c at a)
]

choose-Covers :
    (occ : List Range) (xs : List Span)
    → Ordered longer_first xs
    → All (λ x. (overlaps_any x.start x.stop occ ≡ true) ⊎ Any (Covers x) (choose occ xs)) xs
unfolding choose
choose-Covers occ [] o = tt
choose-Covers occ (x ∷ xs) o = elim (Bool-cases (overlaps_any x.start x.stop occ)) [
  | inl e ↦ subst Goal (sym (choose_taken occ x xs e)) (inl e, choose-Covers occ xs o.1)
  | inr e ↦ subst Goal (sym (choose_new occ x xs e)) (
    inr (inl (overlaps_self x, omega arith)),
    All-mono _ _ (λ z q. later_covered occ xs x z q.1 q.0) xs
        (All-both _ _ xs (choose-Covers (range x ∷ occ) xs o.1) o.0),
  )
]
  where
    Goal : List Span → Type 0
    Goal c = All (λ z. (overlaps_any z.start z.stop occ ≡ true) ⊎ Any (Covers z) c) (x ∷ xs)

longer_total : (x y : Span) → longer_first x y ≡ false → longer_first y x ≡ true
longer_total x y h = ground arith

longer_trans :
    (x y z : Span) → longer_first x y ≡ true → longer_first y z ≡ true → longer_first x z ≡ true
longer_trans x y z h k = ground arith

earlier_total : (x y : Span) → earlier_first x y ≡ false → earlier_first y x ≡ true
earlier_total x y h = ground arith

earlier_trans :
    (x y z : Span) → earlier_first x y ≡ true → earlier_first y z ≡ true → earlier_first x z ≡ true
earlier_trans x y z h k = ground arith

-- Of the spans that the scan found, each is overlapped by a selected span that is no shorter, itself
-- if it is selected.
pub selected-Covers : (spans : List Span) → All (λ x. Any (Covers x) (selected spans)) spans
unfolding selected overlaps_any
selected-Covers spans = All-unsort longer_first _ spans (
    All-mono _ _
      (λ x c. elim c [
        | inl e ↦ absurd (cc)
        | inr a ↦ Any-sort_by earlier_first (Covers x) (choose [] (sort_by longer_first spans)) a
      ])
      (sort_by longer_first spans)
      (choose-Covers [] (sort_by longer_first spans)
        (sort_by-Ordered longer_first longer_total longer_trans spans)))

-- The order of the text: a span ends where the next begins or before.
abbrev pub InOrder : List Span → Type 0
InOrder = Pairwise (λ x y. x.stop ≤ y.start)

Apart-InOrder : (xs : List Span) → Pairwise Apart xs → Ordered earlier_first xs → InOrder xs
Apart-InOrder [] p o = tt
Apart-InOrder (x ∷ xs) p o = (
  All-mono _ _ (λ y q. Apart-order x y q.0 q.1) xs (All-both _ _ xs p.0 o.0),
  Apart-InOrder xs p.1 o.1,
)

-- The selected spans stand in the order of the text and none reaches into the next.
pub selected-InOrder : (spans : List Span) → All IsRange spans → InOrder (selected spans)
unfolding selected
selected-InOrder spans h =
    let sorted = sort_by longer_first spans in
    let chosen = choose [] sorted in
    Apart-InOrder (sort_by earlier_first chosen)
      (sort_by-Pairwise earlier_first Apart Apart-sym chosen
        (choose-Apart [] sorted (All-sort_by longer_first IsRange spans h)))
      (sort_by-Ordered earlier_first earlier_total earlier_trans chosen)

pub All-selected : (P : Span → Type 0) (spans : List Span) → All P spans → All P (selected spans)
unfolding selected
All-selected P spans h =
    All-sort_by earlier_first P (choose [] (sort_by longer_first spans))
      (All-choose P [] (sort_by longer_first spans) (All-sort_by longer_first P spans h))
