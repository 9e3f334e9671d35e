-- ===== src/Substitute/Sorted.antt =====
-- The order of the alternatives in the regular expression of _token.py, and which one is taken.
use credential_proxy.Prelude.{
  ℕ, ◌≤◌, ◌≡◌, refl, ap, sym, subst, true, false, none, some, List, [], ◌∷◌, Text, Dict, leb,
  length, starts_with, lookup, text_eq, text_eq_iff, All, Any, Bool-cases, inl, inr, ◌⊎◌, arith,
}
use credential_proxy.Substitute.{insert_by_length, sort_by_length, keys, first_alternative}

-- The list is in the order of falling lengths, and everything in it is no longer than `n`.
abbrev pub IsFalling : List Text → Type 0
IsFalling [] = Unit
IsFalling (w ∷ ws) = All (λ x. length x ≤ length w) ws × IsFalling ws

All-insert_by_length :
    (P : Text → Type 0) (w : Text) (ws : List Text) → P w → All P ws → All P (insert_by_length w ws)
unfolding insert_by_length
All-insert_by_length P w [] p h = (p, tt)
All-insert_by_length P w (x ∷ ws) p h = elim (Bool-cases (leb (length x) (length w))) [
  | inl e ↦ rw e (p, h)
  | inr e ↦ rw e (h.0, All-insert_by_length P w ws p h.1)
]

All-weaken :
    (n k : ℕ) (ws : List Text) → n ≤ k → All (λ x. length x ≤ n) ws → All (λ x. length x ≤ k) ws
All-weaken n k [] h a = tt
All-weaken n k (w ∷ ws) h a = (omega arith, All-weaken n k ws h a.1)

insert_by_length-IsFalling :
    (w : Text) (ws : List Text) → IsFalling ws → IsFalling (insert_by_length w ws)
unfolding insert_by_length
insert_by_length-IsFalling w [] f = (tt, tt)
insert_by_length-IsFalling w (x ∷ ws) f = elim (Bool-cases (leb (length x) (length w))) [
  | inl e ↦ rw e ((ground arith, All-weaken (length x) (length w) ws (ground arith) f.0), f)
  | inr e ↦ rw e (
    All-insert_by_length (λ y. length y ≤ length x) w ws (ground arith) f.0,
    insert_by_length-IsFalling w ws f.1,
  )
]

pub sort_by_length-IsFalling : (ws : List Text) → IsFalling (sort_by_length ws)
unfolding sort_by_length
sort_by_length-IsFalling [] = tt
sort_by_length-IsFalling (w ∷ ws) =
    insert_by_length-IsFalling w (sort_by_length ws) (sort_by_length-IsFalling ws)

pub All-sort_by_length : (P : Text → Type 0) (ws : List Text) → All P ws → All P (sort_by_length ws)
unfolding sort_by_length
All-sort_by_length P [] h = h
All-sort_by_length P (w ∷ ws) h =
    All-insert_by_length P w (sort_by_length ws) h.0 (All-sort_by_length P ws h.1)

Any-insert_by_length :
    (x w : Text) (ws : List Text)
    → (w ≡ x) ⊎ Any (λ y. y ≡ x) ws
    → Any (λ y. y ≡ x) (insert_by_length w ws)
unfolding insert_by_length
Any-insert_by_length x w [] h = h
Any-insert_by_length x w (z ∷ ws) h = elim (Bool-cases (leb (length z) (length w))) [
  | inl e ↦ rw e h
  | inr e ↦ rw e (elim h [
    | inl a ↦ inr (Any-insert_by_length x w ws (inl a))
    | inr (inl b) ↦ inl b
    | inr (inr c) ↦ inr (Any-insert_by_length x w ws (inr c))
  ])
]

pub Any-sort_by_length :
    (x : Text) (ws : List Text) → Any (λ y. y ≡ x) ws → Any (λ y. y ≡ x) (sort_by_length ws)
unfolding sort_by_length
Any-sort_by_length x [] h = h
Any-sort_by_length x (w ∷ ws) h =
    Any-insert_by_length x w (sort_by_length ws)
      (elim h [ inl a ↦ inl a | inr b ↦ inr (Any-sort_by_length x ws b) ])

pub Any-keys : (w tok : Text) (m : Dict Text) → lookup w m ≡ some tok → Any (λ y. y ≡ w) (keys m)
unfolding lookup
Any-keys w tok [] h = absurd (cc)
Any-keys w tok ((k, v) ∷ m) h = elim (Bool-cases (text_eq w k)) [
  | inl e ↦ inl (sym ((text_eq_iff w k).0 e))
  | inr e ↦ inr (Any-keys w tok m (rw e at h))
]

pub lookup_of_Any :
    (w : Text) (m : Dict Text) → Any (λ y. y ≡ w) (keys m) → (tok : Text) × (lookup w m ≡ some tok)
unfolding lookup
lookup_of_Any w [] a = absurd a
lookup_of_Any w ((k, v) ∷ m) a = elim (Bool-cases (text_eq w k)) [
  | inl e ↦ (v, rw e)
  | inr e ↦ elim a [
    | inl at ↦ absurd (ground (arith, text_eq_iff w k))
    | inr later ↦ let (tok, h) = lookup_of_Any w m later in (tok, rw e h)
  ]
]

pub All-of_Any :
    (P : Text → Type 0) (ws : List Text) → ((w : Text) → Any (λ y. y ≡ w) ws → P w) → All P ws
All-of_Any P [] h = tt
All-of_Any P (w ∷ ws) h = (h w (inl refl), All-of_Any P ws (λ x a. h x (inr a)))

pub All-Any : (P : Text → Type 0) (ws : List Text) (w : Text) → All P ws → Any (λ y. y ≡ w) ws → P w
All-Any P [] w h a = absurd a
All-Any P (x ∷ ws) w h (inl e) = subst P e h.0
All-Any P (x ∷ ws) w h (inr a) = All-Any P ws w h.1 a

-- What the first alternative is, in a list of falling lengths.
pub first_alternative-some :
    (ws : List Text) (t w : Text)
    → IsFalling ws
    → first_alternative ws t ≡ some w
    → Any (λ y. y ≡ w) ws
      × (starts_with t w ≡ true)
      × ((x : Text) → Any (λ y. y ≡ x) ws → starts_with t x ≡ true → length x ≤ length w)
unfolding first_alternative
first_alternative-some [] t w f h = absurd (cc)
first_alternative-some (v ∷ ws) t w f h = elim (Bool-cases (starts_with t v)) [
  | inl e ↦
      let same : v ≡ w = ground arith in
      (
        inl same,
        rw (← same) e,
        λ x a q. elim a [
          | inl at ↦ omega (arith, ap length at, ap length same)
          | inr later ↦
              omega (arith, All-Any (λ y. length y ≤ length v) ws x f.0 later, ap length same)
        ],
      )
  | inr e ↦
      let (a, b, c) = first_alternative-some ws t w f.1 (rw e at h) in
      (inr a, b, λ x d q. elim d [ inl at ↦ absurd (ground arith) | inr later ↦ c x later q ])
]

pub first_alternative-none :
    (ws : List Text) (t : Text)
    → first_alternative ws t ≡ none
    → (x : Text) → Any (λ y. y ≡ x) ws
    → starts_with t x ≡ false
unfolding first_alternative
first_alternative-none [] t h x a = absurd a
first_alternative-none (v ∷ ws) t h x a = elim (Bool-cases (starts_with t v)) [
  | inl e ↦ absurd (ground arith)
  | inr e ↦ elim a [
    | inl at ↦ rw (← at) e
    | inr later ↦ first_alternative-none ws t (rw e at h) x later
  ]
]
