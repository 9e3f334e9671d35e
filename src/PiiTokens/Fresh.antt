-- ===== src/PiiTokens/Fresh.antt =====
-- The next number of a PII token is the least that no token in the tables has.
use credential_proxy.Prelude.{
  ℕ, zero, suc, ◌+◌, ◌≤◌, ◌<◌, ◌≡◌, refl, true, false, some, List, [], ◌∷◌, ◌++◌, Text, Dict, ◌==◌,
  ==_iff, codes, length, starts_with, lookup, text_eq_iff, All, if◌then◌else◌, arith, Bool-cases,
  inl, inr, ◌⊎◌,
}
use credential_proxy.Decimal.{
  is_digit, starts_digit, decimal, read_digits, read_digits-decimal, decimal-digits,
  decimal-starts_digit, starts_digit-append,
}
use credential_proxy.PiiTokens.{
  make_pii_token, skip_digits, seq_at, seq_of, used_in, is_used, first_free, next_available_index,
}

skip_digits-append :
    (t s : Text) → All (λ c. is_digit c ≡ true) t → skip_digits (t ++ 95 ∷ s) ≡ 95 ∷ s
unfolding skip_digits
skip_digits-append [] s h = refl
skip_digits-append (c ∷ t) s h = rw (h.0) (skip_digits-append t s h.1)

seq_at-prefixed :
    (t s : Text)
    → starts_digit t ≡ true
    → skip_digits t ≡ 95 ∷ s
    → seq_at (95 ∷ 95 ∷ 80 ∷ 73 ∷ 73 ∷ 95 ∷ t) ≡ some (read_digits 0 t)
unfolding seq_at starts_with
seq_at-prefixed t s d e = rw (d, e)

-- The number is read off a token, whatever its random part.
pub seq_of-make_pii_token : (n : ℕ) (rand8 : Text) → seq_of (make_pii_token n rand8) ≡ some n
unfolding seq_of make_pii_token
seq_of-make_pii_token n rand8 =
    let after = rand8 ++ codes "__" in
    let matched =
      seq_at-prefixed (decimal n ++ 95 ∷ after) after
        (starts_digit-append (decimal n) (95 ∷ after) (decimal-starts_digit n))
        (skip_digits-append (decimal n) after (decimal-digits n)) in
    ground (arith, matched, read_digits-decimal n (95 ∷ after) refl)

-- The number of a token in a table is used.
pub used_in-lookup :
    (tok v : Text) (n : ℕ) (d : Dict Text)
    → lookup tok d ≡ some v
    → seq_of tok ≡ some n
    → is_used n (used_in d) ≡ true
unfolding used_in lookup
used_in-lookup tok v n [] h e = absurd (cc)
used_in-lookup tok v n ((k, w) ∷ d) h e =
    ground (arith, used_in-lookup tok v n d, text_eq_iff tok k, ==_iff n n)

-- Without the number `n`.
abbrev without : ℕ → List ℕ → List ℕ
without n [] = []
without n (k ∷ ks) = let rest = without n ks in if k == n then rest else k ∷ rest

length-without-le : (n : ℕ) (ks : List ℕ) → length (without n ks) ≤ length ks
length-without-le n [] = omega arith
length-without-le n (k ∷ ks) = ground (arith, length-without-le n ks)

length-without-lt : (n : ℕ) (ks : List ℕ) → is_used n ks ≡ true → length (without n ks) < length ks
length-without-lt n [] h = absurd (cc)
length-without-lt n (k ∷ ks) h = ground (arith, length-without-le n ks, length-without-lt n ks)

is_used-without :
    (m n : ℕ) (ks : List ℕ) → n < m → is_used m ks ≡ true → is_used m (without n ks) ≡ true
is_used-without m n [] h e = absurd (cc)
is_used-without m n (k ∷ ks) h e = ground (arith, is_used-without m n ks, ==_iff k m, ==_iff k n)

-- If every number from `n` on, `fuel` many, is used, there are at least so many.
pigeonhole :
    (fuel n : ℕ) (ks : List ℕ)
    → ((m : ℕ) → n ≤ m → m < n + fuel → is_used m ks ≡ true)
    → fuel ≤ length ks
pigeonhole zero n ks h = omega arith
pigeonhole (suc fuel) n ks h =
    let fewer : fuel ≤ length (without n ks) =
      pigeonhole fuel (n + 1) (without n ks)
        (λ m a b. is_used-without m n ks (omega arith) (h m (omega arith) (omega arith))) in
    omega (arith, length-without-lt n ks (h n (omega arith) (omega arith)))

-- The search ends at a free number, or every number that it tried is used.
first_free_cases :
    (fuel n : ℕ) (ks : List ℕ)
    → (is_used (first_free fuel n ks) ks ≡ false)
      ⊎ ((m : ℕ) → n ≤ m → m < n + fuel → is_used m ks ≡ true)
unfolding first_free
first_free_cases zero n ks = inr (λ m a b. absurd (omega arith))
first_free_cases (suc fuel) n ks = elim (Bool-cases (is_used n ks)) [
  | inr free ↦ inl (ground arith)
  | inl held ↦ elim (first_free_cases fuel (n + 1) ks) [
    | inl free ↦ inl (ground arith)
    | inr all ↦ inr (λ m a b. elim (Bool-cases (m == n)) [
      | inl same ↦ ground (arith, ==_iff m n)
      | inr off ↦ all m (ground (arith, ==_iff m n)) (omega arith)
    ])
  ]
]

first_free-le : (fuel n : ℕ) (ks : List ℕ) → n ≤ first_free fuel n ks
unfolding first_free
first_free-le zero n ks = omega arith
first_free-le (suc fuel) n ks = ground (arith, first_free-le fuel (n + 1) ks)

-- What is passed over is used.
first_free_below :
    (fuel n m : ℕ) (ks : List ℕ) → n ≤ m → m < first_free fuel n ks → is_used m ks ≡ true
unfolding first_free
first_free_below zero n m ks a b = absurd (omega arith)
first_free_below (suc fuel) n m ks a b =
    ground (arith, first_free_below fuel (n + 1) m ks, ==_iff m n)

-- The search for the next number ends at one that is not used and not 0, and every smaller one
-- but 0 is used.
pub next_available_index_least :
    (used : List ℕ) (m : ℕ)
    → (is_used (next_available_index used) used ≡ false)
      × (1 ≤ next_available_index used)
      × ((m < 1) ⊎ ((next_available_index used ≤ m) ⊎ (is_used m used ≡ true)))
unfolding next_available_index
next_available_index_least used m = (
  elim (first_free_cases (suc (length used)) 1 used) [
    | inl free ↦ free
    | inr all ↦ absurd (omega (arith, pigeonhole (suc (length used)) 1 used all))
  ],
  first_free-le (suc (length used)) 1 used,
  elim (Bool-cases (is_used m used)) [
    | inl held ↦ inr (inr held)
    | inr free ↦ ground (arith, first_free_below (suc (length used)) 1 m used)
  ],
)
