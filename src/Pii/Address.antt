-- ===== src/Pii/Address.antt =====
-- The checks of addresses in _pii.py; `ipaddress.ip_address` is an argument, with the answer's
-- properties that the code reads.
use credential_proxy.Prelude.{
  ℕ, ◌+◌, Bool, true, false, ◌&&◌, ◌||◌, not, Option, none, some, List, [], ◌∷◌, ◌++◌, map, Text,
  ◌==◌, leb, codes, any, if◌then◌else◌, text_eq, strip, length, truthy,
}
use credential_proxy.Decimal.{is_digit, decimal, read_digits}
use mathlib.Core.List.{reverse}

pub record IpAddress : Type 0 where
  pub version : ℕ
  pub is_global : Bool
  pub is_multicast : Bool
  pub is_reserved : Bool
  pub is_unspecified : Bool
  pub is_site_local : Bool
  pub is_loopback : Bool
  pub is_link_local : Bool
  pub is_private : Bool

-- `s.split(sep)` for one character: the piece at the front, and those behind it.
unfoldable pub split_on : ℕ → Text → Text × List Text
split_on sep [] = ([], [])
split_on sep (c ∷ s) =
    let (piece, pieces) = split_on sep s in
    if c == sep then ([], piece ∷ pieces) else (c ∷ piece, pieces)

-- The digits of an `int` literal with the single underscores between them taken out.
unfoldable pub bare_digits : Bool → Text → Option Text
bare_digits after_digit [] = if after_digit then some [] else none
bare_digits after_digit (c ∷ s) =
    let rest = bare_digits true s in
    let rest' = bare_digits false s in
    if is_digit c
    then elim rest [ none ↦ none | some ds ↦ some (c ∷ ds) ]
    else if (c == 95) && after_digit
    then rest'
    else none

-- `str(int(p))` with a sign; the numerals are ASCII.
unfoldable pub signed_int : Bool → Text → Option Text
unfolding bare_digits decimal read_digits
signed_int negative s = elim (bare_digits false s) [
  | none ↦ none
  | some ds ↦
      let n = read_digits 0 ds in
      some (if negative && not (n == 0) then codes "-" ++ decimal n else decimal n)
]

-- The sign in front of the numeral.
unfoldable pub unsigned_int : Text → Option Text
unfolding signed_int
unsigned_int [] = none
unsigned_int (c ∷ s) =
    if c == 45
    then signed_int true s
    else if c == 43
    then signed_int false s
    else signed_int false (c ∷ s)

-- `str(int(p))`, none for the `ValueError`.
unfoldable pub str_int : Text → Option Text
unfolding unsigned_int strip
str_int p = unsigned_int (strip p)

-- `'.'.join(str(int(p)) for p in parts)`
unfoldable pub join_ints : List Text → Option Text
unfolding str_int
join_ints [] = some []
join_ints (p ∷ []) = str_int p
join_ints (p ∷ q ∷ ps) =
    let rest = join_ints (q ∷ ps) in
    elim (str_int p) [
      | none ↦ none
      | some n ↦ elim rest [ none ↦ none | some s ↦ some (n ++ codes "." ++ s) ]
    ]

-- `_normalize_ipv4_leading_zeros`
unfoldable pub normalize_ipv4_leading_zeros : Text → Text
unfolding split_on join_ints
normalize_ipv4_leading_zeros value =
    let (piece, pieces) = split_on 46 value in
    if not (length (piece ∷ pieces) == 4)
    then value
    else elim (join_ints (piece ∷ pieces)) [ none ↦ value | some v ↦ v ]

-- `ip_address(v).version == n`, false for the `ValueError`.
unfoldable pub has_version : ℕ → Option IpAddress → Bool
has_version n none = false
has_version n (some ip) = ip.version == n

module _ (ip_address : Text → Option IpAddress) where
  -- `_is_valid_ipv4`
  unfoldable pub is_valid_ipv4 : Text → Bool
  unfolding has_version normalize_ipv4_leading_zeros
  is_valid_ipv4 value = has_version 4 (ip_address (normalize_ipv4_leading_zeros value))

  -- `_is_valid_ipv6`
  unfoldable pub is_valid_ipv6 : Text → Bool
  unfolding has_version
  is_valid_ipv6 value = has_version 6 (ip_address value)

abbrev pub is_mark : ℕ → Bool
is_mark c = any (λ m. c == m) (codes ".,;)]}")

unfoldable pub lstrip_marks : Text → Text
lstrip_marks [] = []
lstrip_marks (c ∷ s) = let rest = lstrip_marks s in if is_mark c then rest else c ∷ s

-- `value.rstrip('.,;)]}')`
unfoldable pub rstrip_marks : Text → Text
unfolding lstrip_marks
rstrip_marks value = reverse (lstrip_marks (reverse value))

abbrev pub lower_char : ℕ → ℕ
lower_char c = if leb 65 c && leb c 90 then c + 32 else c

-- What `_is_reserved_ip` says of a parsed address.
unfoldable pub exempt : IpAddress → Bool
exempt ip =
    if not ip.is_global
    then true
    else if ip.is_multicast || (ip.is_reserved || ip.is_unspecified)
    then true
    else if ip.is_site_local
    then true
    else ip.is_loopback || (ip.is_link_local || ip.is_private)

-- The text that `_is_reserved_ip` hands to `ip_address`, none where it says no at once.
unfoldable pub address_text : Text → Text → Option Text
unfolding rstrip_marks text_eq normalize_ipv4_leading_zeros
address_text value kind =
    if text_eq kind (codes "ipv6")
    then (let v = map lower_char (rstrip_marks value) in if truthy v then some v else none)
    else if text_eq kind (codes "ipv4")
    then some (normalize_ipv4_leading_zeros value)
    else some value

-- `_is_reserved_ip`
unfoldable pub is_reserved_ip : (Text → Option IpAddress) → Text → Text → Bool
unfolding exempt address_text
is_reserved_ip ip_address value kind = elim (address_text value kind) [
  | none ↦ false
  | some v ↦ elim (ip_address v) [ none ↦ false | some ip ↦ exempt ip ]
]
