-- ===== src/Pii/Checksum.antt =====
-- The check digits of _pii.py: Luhn's for bank cards, GB 11643-1999 for identity cards.
pub mod Detects
use credential_proxy.Prelude.{
  ℕ, zero, suc, ◌+◌, ◌-◌, ◌*◌, ◌%◌, Bool, true, false, ◌&&◌, not, List, [], ◌∷◌, Text, ◌==◌, ltb,
  leb, codes, if◌then◌else◌, take, drop, length, all,
}
use credential_proxy.Decimal.{is_digit}
use mathlib.Core.List.{reverse}

-- What the digit `d` adds at an even or an odd place from the right.
abbrev pub luhn_term : Bool → ℕ → ℕ
luhn_term false d = d
luhn_term true d = if ltb 9 (d * 2) then d * 2 - 9 else d * 2

-- The sum over the digits in reverse; the flag says whether the place is odd.
unfoldable pub luhn_total : Bool → Text → ℕ
luhn_total odd [] = 0
luhn_total odd (c ∷ s) = luhn_term odd (c - 48) + luhn_total (not odd) s

-- `_luhn_ok`
unfoldable pub luhn_ok : Text → Bool
unfolding luhn_total
luhn_ok digits = luhn_total false (reverse digits) % 10 == 0

abbrev pub id_weights : List ℕ
id_weights = 7 ∷ 9 ∷ 10 ∷ 5 ∷ 8 ∷ 4 ∷ 2 ∷ 1 ∷ 6 ∷ 3 ∷ 7 ∷ 9 ∷ 10 ∷ 5 ∷ 8 ∷ 4 ∷ 2 ∷ []

abbrev pub id_checks : Text
id_checks = codes "10X98765432"

-- `sum(int(value[i]) * _ID_WEIGHTS[i] for i in range(17))`
unfoldable pub weighted_sum : List ℕ → Text → ℕ
weighted_sum [] s = 0
weighted_sum (w ∷ ws) [] = 0
weighted_sum (w ∷ ws) (c ∷ s) = (c - 48) * w + weighted_sum ws s

-- `str.upper` of an ASCII character.
abbrev pub upper : ℕ → ℕ
upper c = if leb 97 c && leb c 122 then c - 32 else c

-- `_ID_CHECKS[n]`
unfoldable pub check_at : ℕ → Text → ℕ
check_at n [] = 0
check_at zero (c ∷ s) = c
check_at (suc n) (c ∷ s) = check_at n s

-- `value[17].upper() == …` for the text from place 17 on.
unfoldable pub last_matches : ℕ → Text → Bool
last_matches want [] = false
last_matches want (c ∷ s) = upper c == want

-- `_id_card_ok`, where `isdigit` is taken for the ASCII digits.
unfoldable pub id_card_ok : Text → Bool
unfolding weighted_sum check_at last_matches
id_card_ok value =
    if not (length value == 18)
    then false
    else if not (all is_digit (take 17 value))
    then false
    else last_matches (check_at (weighted_sum id_weights value % 11) id_checks) (drop 17 value)
