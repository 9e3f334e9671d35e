-- ===== src/PiiTokens.antt =====
-- `GlobalPiiTokens` of _token.py: the tables of personal data and their tokens, one pair for the
-- requests and one for the responses. The random part of a token (`secrets.token_hex`) is an
-- argument, and the counters of the metrics are left out but for the evictions.
pub mod Fresh
pub mod Paired
use credential_proxy.Prelude.{
  ℕ, zero, suc, ◌+◌, Bool, true, false, ◌||◌, not, Option, none, some, List, [], ◌∷◌, ◌++◌, map,
  Text, Dict, ◌==◌, ltb, codes, any, if◌then◌else◌, text_eq, starts_with, drop, length, lookup,
  insert, erase, move_to_end, truthy, contains,
}
use credential_proxy.Decimal.{is_digit, starts_digit, decimal, read_digits}
use credential_proxy.Token.{token_prefix}

pub record PiiTokens : Type 0 where
  pub pii_p2t : Dict Text
  pub pii_t2p : Dict Text
  pub resp_p2t : Dict Text
  pub resp_t2p : Dict Text
  pub seq : ℕ
  pub pii_lru : ℕ

abbrev pub pii_token_prefix : Text
pii_token_prefix = codes "__PII_"

abbrev pub pii_max_entries : ℕ
pii_max_entries = 1000

-- `_make_pii_token`
unfoldable pub make_pii_token : ℕ → Text → Text
make_pii_token n rand8 = pii_token_prefix ++ (decimal n ++ (codes "_" ++ (rand8 ++ codes "__")))

-- `sub in s`
unfoldable pub has_part : Text → Text → Bool
unfolding starts_with
has_part part [] = starts_with [] part
has_part part (c ∷ s) = let rest = has_part part s in starts_with (c ∷ s) part || rest

-- What is left behind the digits at the front.
unfoldable pub skip_digits : Text → Text
skip_digits [] = []
skip_digits (c ∷ s) = let rest = skip_digits s in if is_digit c then rest else c ∷ s

-- A match of `__PII_(\d+)_` at the front of the text, with its number.
unfoldable pub seq_at : Text → Option ℕ
unfolding starts_with skip_digits read_digits
seq_at s =
    let rest = drop 6 s in
    if starts_with s pii_token_prefix
    then if starts_digit rest
      then if starts_with (skip_digits rest) (codes "_") then some (read_digits 0 rest) else none
      else none
    else none

-- `_seq_pat.search(tok)`
unfoldable pub seq_of : Text → Option ℕ
unfolding seq_at
seq_of [] = none
seq_of (c ∷ s) = let rest = seq_of s in elim (seq_at (c ∷ s)) [ some n ↦ some n | none ↦ rest ]

-- The numbers of the tokens in a table.
unfoldable pub used_in : Dict Text → List ℕ
unfolding seq_of
used_in [] = []
used_in ((tok, v) ∷ d) =
    let rest = used_in d in elim (seq_of tok) [ some n ↦ n ∷ rest | none ↦ rest ]

abbrev pub is_used : ℕ → List ℕ → Bool
is_used n used = any (λ k. k == n) used

-- `while nxt in used: nxt += 1`; one step more than there are numbers is enough.
unfoldable pub first_free : ℕ → ℕ → List ℕ → ℕ
first_free zero n used = n
first_free (suc fuel) n used =
    let rest = first_free fuel (n + 1) used in if is_used n used then rest else n

-- `_next_available_index`
unfoldable pub next_available_index : List ℕ → ℕ
unfolding first_free
next_available_index used = first_free (suc (length used)) 1 used

-- A value that carries one of the prefixes is refused; what the two patterns match whole does.
unfoldable pub looks_like_token : Text → Bool
unfolding has_part
looks_like_token value = has_part pii_token_prefix value || has_part token_prefix value

-- One of the two pairs of tables, with the number of entries that were evicted.
abbrev pub Pair : Type 0
Pair = Dict Text × Dict Text × ℕ

-- `while len(table_p2t) > PII_MAX_ENTRIES`; there are at most as many steps as entries.
unfoldable pub evict_over : ℕ → Pair → Pair
evict_over zero t = t
evict_over (suc fuel) ([], back, n) = ([], back, n)
evict_over (suc fuel) ((v, tok) ∷ there, back, n) =
    if ltb pii_max_entries (length ((v, tok) ∷ there))
    then evict_over fuel (erase v ((v, tok) ∷ there), erase tok back, n + 1)
    else ((v, tok) ∷ there, back, n)

-- A new value: its token is entered in both tables.
unfoldable pub enter_pair : Text → Text → Dict Text → Dict Text → Pair
unfolding evict_over
enter_pair value tok there back =
    let filled = insert value tok there in
    evict_over (length filled) (filled, insert tok value back, 0)

-- The result: the value itself or a token, or the `ValueError`.
pub data Registered : Type 0 where
  registered : Text → Registered
  value_error : Registered

abbrev pub max : ℕ → ℕ → ℕ
max a b = if ltb a b then b else a

-- The tables of one side: the token that is there already, used again, or a new one.
unfoldable pub register_in : Text → Text → ℕ → Dict Text → Dict Text → Pair × Text
unfolding enter_pair make_pii_token
register_in value rand8 n there back = elim (lookup value there) [
  | some tok ↦
      ((move_to_end value there, if contains tok back then move_to_end tok back else back, 0), tok)
  | none ↦ let tok = make_pii_token n rand8 in (enter_pair value tok there back, tok)
]

-- The number that a new token takes, over the tables of both sides.
unfoldable pub next_number : PiiTokens → ℕ
unfolding next_available_index used_in
next_number s = next_available_index (used_in s.pii_t2p ++ used_in s.resp_t2p)

-- The section of `register` under the lock; the flag says whether it is the responses' side.
unfoldable pub register_locked : Text → Text → Bool → PiiTokens → PiiTokens × Text
unfolding register_in next_number
register_locked value rand8 true s =
    let n = next_number s in
    let (t, tok) = register_in value rand8 n s.resp_p2t s.resp_t2p in
    (
      record s {
        resp_p2t = t.0;
        resp_t2p = t.1;
        seq = if contains value s.resp_p2t then s.seq else max s.seq n;
        pii_lru = s.pii_lru + t.2;
      },
      tok,
    )
register_locked value rand8 false s =
    let n = next_number s in
    let (t, tok) = register_in value rand8 n s.pii_p2t s.pii_t2p in
    (
      record s {
        pii_p2t = t.0;
        pii_t2p = t.1;
        seq = if contains value s.pii_p2t then s.seq else max s.seq n;
        pii_lru = s.pii_lru + t.2;
      },
      tok,
    )

-- `register(value, response_side)`
unfoldable pub register : Text → Text → Bool → PiiTokens → PiiTokens × Registered
unfolding register_locked looks_like_token
register value rand8 response_side s =
    if not (truthy value)
    then (s, registered value)
    else if looks_like_token value
    then (s, value_error)
    else (let (s', tok) = register_locked value rand8 response_side s in (s', registered tok))

-- `clear`
unfoldable pub clear : PiiTokens → PiiTokens
clear s = record s { pii_p2t = []; pii_t2p = []; resp_p2t = []; resp_t2p = [] }
