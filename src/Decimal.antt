-- ===== src/Decimal.antt =====
-- Decimal numerals as Python formats them (`{n}`, `{n:06d}`), and their reading.
use mathlib.Core.List.{append_assoc}
use credential_proxy.Prelude.{
  ℕ, zero, suc, ◌+◌, ◌-◌, ◌*◌, ◌/◌, ◌%◌, ◌<◌, ◌≡◌, refl, Bool, true, false, ◌&&◌, [], ◌∷◌, ◌++◌,
  Text, ltb, leb, if◌then◌else◌, length, replicate, arith, All, Bool-cases, inl, inr, ◌∙◌, ap,
  All-append,
}

-- One of the characters 0 to 9.
abbrev pub is_digit : ℕ → Bool
is_digit c = leb 48 c && leb c 57

-- The digits of `n` in front of `acc`; `n` falls below 10 before the fuel `n + 1` runs out.
unfoldable pub digits_from : ℕ → ℕ → Text → Text
digits_from zero n acc = acc
digits_from (suc fuel) n acc =
    let d = 48 + n % 10 in
    let rest = digits_from fuel (n / 10) (d ∷ acc) in if ltb n 10 then d ∷ acc else rest

-- `f'{n}'`
unfoldable pub decimal : ℕ → Text
unfolding digits_from
decimal n = digits_from (suc n) n []

-- `f'{n:06d}'`
unfoldable pub decimal_06 : ℕ → Text
unfolding decimal
decimal_06 n = replicate (6 - length (decimal n)) 48 ++ decimal n

-- The number that the digits at the front spell after those read already.
unfoldable pub read_digits : ℕ → Text → ℕ
read_digits acc [] = acc
read_digits acc (c ∷ s) =
    let rest = read_digits (acc * 10 + (c - 48)) s in if is_digit c then rest else acc

digits_from-read :
    (fuel n : ℕ) (acc : Text)
    → n < fuel
    → read_digits 0 (digits_from fuel n acc) ≡ read_digits n acc
unfolding digits_from read_digits
digits_from-read zero n acc h = absurd (omega arith)
digits_from-read (suc fuel) n acc h = elim (Bool-cases (ltb n 10)) [
  | inl e ↦ rw e (ground arith)
  | inr e ↦ rw e (digits_from-read fuel (n / 10) (_ ∷ acc) (ground arith) ∙ step n acc)
]
  where
    step : (n : ℕ) (acc : Text) → read_digits (n / 10) ((48 + n % 10) ∷ acc) ≡ read_digits n acc
    step n acc = let e : n / 10 * 10 + (48 + n % 10 - 48) ≡ n = omega arith in ground arith

read_digits-zeros : (k : ℕ) (s : Text) → read_digits 0 (replicate k 48 ++ s) ≡ read_digits 0 s
unfolding read_digits
read_digits-zeros zero s = refl
read_digits-zeros (suc k) s = read_digits-zeros k s

digits_from-append :
    (fuel n : ℕ) (acc s : Text) → digits_from fuel n acc ++ s ≡ digits_from fuel n (acc ++ s)
unfolding digits_from
digits_from-append zero n acc s = refl
digits_from-append (suc fuel) n acc s =
    ground (arith, digits_from-append fuel (n / 10) ((48 + n % 10) ∷ acc) s)

-- Reading stops at the first character that is no digit.
abbrev pub Stops : Text → Type 0
Stops [] = Unit
Stops (c ∷ s) = is_digit c ≡ false

read_digits-Stops : (n : ℕ) (s : Text) → Stops s → read_digits n s ≡ n
unfolding read_digits
read_digits-Stops n [] h = refl
read_digits-Stops n (c ∷ s) h = rw h

-- What was printed is read back, from either form.
pub read_digits-decimal : (n : ℕ) (s : Text) → Stops s → read_digits 0 (decimal n ++ s) ≡ n
unfolding decimal
read_digits-decimal n s h =
    ap (read_digits 0) (digits_from-append (suc n) n [] s)
    ∙ digits_from-read (suc n) n s (omega arith)
    ∙ read_digits-Stops n s h

pub read_digits-decimal_06 : (n : ℕ) (s : Text) → Stops s → read_digits 0 (decimal_06 n ++ s) ≡ n
unfolding decimal_06
read_digits-decimal_06 n s h =
    ap (read_digits 0) (append_assoc (replicate (6 - length (decimal n)) 48) (decimal n) s)
    ∙ read_digits-zeros (6 - length (decimal n)) (decimal n ++ s)
    ∙ read_digits-decimal n s h

digits_from-digits :
    (fuel n : ℕ) (acc : Text)
    → All (λ c. is_digit c ≡ true) acc
    → All (λ c. is_digit c ≡ true) (digits_from fuel n acc)
unfolding digits_from
digits_from-digits zero n acc h = h
digits_from-digits (suc fuel) n acc h = elim (Bool-cases (ltb n 10)) [
  | inl e ↦ rw e (ground arith, h)
  | inr e ↦ rw e (digits_from-digits fuel (n / 10) (_ ∷ acc) (ground arith, h))
]

replicate-digits : (k : ℕ) → All (λ c. is_digit c ≡ true) (replicate k 48)
replicate-digits zero = tt
replicate-digits (suc k) = (refl, replicate-digits k)

pub decimal_06-digits : (n : ℕ) → All (λ c. is_digit c ≡ true) (decimal_06 n)
unfolding decimal_06 decimal
decimal_06-digits n =
    All-append (λ c. is_digit c ≡ true) (replicate (6 - length (decimal n)) 48) (decimal n)
      (replicate-digits _) (digits_from-digits (suc n) n [] tt)

pub decimal-digits : (n : ℕ) → All (λ c. is_digit c ≡ true) (decimal n)
unfolding decimal
decimal-digits n = digits_from-digits (suc n) n [] tt

-- A numeral begins with a digit.
abbrev pub starts_digit : Text → Bool
starts_digit [] = false
starts_digit (c ∷ s) = is_digit c

digits_from-starts_digit :
    (fuel n : ℕ) (acc : Text)
    → starts_digit acc ≡ true
    → starts_digit (digits_from fuel n acc) ≡ true
unfolding digits_from
digits_from-starts_digit zero n acc h = h
digits_from-starts_digit (suc fuel) n acc h = elim (Bool-cases (ltb n 10)) [
  | inl e ↦ rw e (ground arith)
  | inr e ↦ rw e (digits_from-starts_digit fuel (n / 10) ((48 + n % 10) ∷ acc) (ground arith))
]

pub decimal-starts_digit : (n : ℕ) → starts_digit (decimal n) ≡ true
unfolding decimal digits_from
decimal-starts_digit n = elim (Bool-cases (ltb n 10)) [
  | inl e ↦ rw e (ground arith)
  | inr e ↦ rw e (digits_from-starts_digit n (n / 10) ((48 + n % 10) ∷ []) (ground arith))
]

pub starts_digit-append : (t s : Text) → starts_digit t ≡ true → starts_digit (t ++ s) ≡ true
starts_digit-append [] s h = absurd (cc)
starts_digit-append (c ∷ t) s h = h
