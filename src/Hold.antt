-- ===== src/Hold.antt =====
-- How _llm.py cuts a streamed text: `_split_safe_hold`, `_custom_tail_hold_run`,
-- `_pii_tail_hold_run` and `_strip_token_forms`.
pub mod Splits
pub mod Tail
pub mod Whole
pub mod Token
use credential_proxy.Prelude.{
  ℕ, zero, suc, ◌-◌, Bool, true, false, ◌||◌, Option, none, some, List, [], ◌∷◌, ◌++◌, Text, any,
  if◌then◌else◌, starts_with, truthy, length, take, drop, last_of, contains, Dict, map, leb, codes,
  text_eq, ltb,
}
use credential_proxy.PiiTokens.{has_part}
use credential_proxy.Audit.Host.{ends_with}

-- What `s.rfind(part)` points to: the text from the last place on where the part stands.
unfoldable pub from_last : Text → Text → Option Text
unfolding starts_with
from_last part [] = if starts_with [] part then some [] else none
from_last part (c ∷ s) = elim (from_last part s) [
  | some found ↦ some found
  | none ↦ if starts_with (c ∷ s) part then some (c ∷ s) else none
]

-- `for _k in range(_n, 0, -1)`: the longest beginning of the hint that ends the window.
unfoldable pub cut_hint : ℕ → Text → Text → Text
unfolding ends_with
cut_hint zero hint win = []
cut_hint (suc n) hint win =
    let rest = cut_hint n hint win in
    if ends_with win (take (suc n) hint) then last_of (suc n) win else rest

-- One hint: the text from its last place in the window on, or the part of it that ends the window.
unfoldable pub hint_run : Text → Text → Text
unfolding from_last cut_hint
hint_run hint win = elim (from_last hint win) [
  | some found ↦ found
  | none ↦ cut_hint (if ltb (length hint) (length win) then length hint else length win) hint win
]

unfoldable pub hints_run : List Text → Text → Text
unfolding hint_run
hints_run [] win = []
hints_run (h ∷ hints) win =
    let hint = take 64 h in
    let rest = hints_run hints win in
    if truthy hint then if truthy (hint_run hint win) then hint_run hint win else rest else rest

-- `_custom_tail_hold_run`
unfoldable pub custom_tail_hold_run : Text → List Text → Text
unfolding hints_run
custom_tail_hold_run content extra_prefixes = hints_run extra_prefixes (last_of 64 content)

-- What the expressions find in the text at hand: the text in front of a full token at the end with
-- the token, for both kinds of tokens. What they answer on other texts: the group that each search
-- for the tail of a value finds; whether a run has a complete shape; `re.sub` for the full and the
-- partial tokens. `is_ipv6_address` tells whether `ipaddress.IPv6Address` accepts the run.
pub record Forms : Type 0 where
  pub full_token : Option (Text × Text)
  pub full_pii_token : Option (Text × Text)
  pub email_tail : Text → Option Text
  pub ipv4_tail : Text → Option Text
  pub ipv6_tail : Text → Option Text
  pub apikey_tail : Text → Option Text
  pub digits_tail : Text → Option Text
  pub complete_email : Text → Bool
  pub complete_ipv4 : Text → Bool
  pub is_ipv6_address : Text → Bool
  pub complete_apikey : Text → Bool
  pub complete_phone : Text → Bool
  pub complete_id : Text → Bool
  pub complete_bank : Text → Bool
  pub sub_token : Text → Text
  pub sub_partial_token : Text → Text
  pub sub_pii_partial_token : Text → Text

-- `_strip_partials`
unfoldable pub strip_partials : Forms → Text → Text
strip_partials f text = f.sub_pii_partial_token (f.sub_partial_token text)

-- `_strip_token_forms`
unfoldable pub strip_token_forms : Forms → Text → Text
unfolding strip_partials
strip_token_forms f content = strip_partials f (f.sub_token content)

-- A run that is found is held where its shape is not complete; the next search is made where
-- nothing is found.
unfoldable pub hold_incomplete : (Text → Bool) → Option Text → Text → Text
hold_incomplete complete none next = next
hold_incomplete complete (some run) next = if complete run then [] else run

-- The address of at least two characters; a shorter one leaves the word to the next search.
unfoldable pub long_enough : Option Text → Option Text
long_enough none = none
long_enough (some run) = if leb 2 (length run) then some run else none

-- `_pii_tail_hold_run`
unfoldable pub pii_tail_hold_run : Forms → Text → Text
unfolding hold_incomplete long_enough
pii_tail_hold_run f content =
    let win = last_of 256 content in
    let found = hold_incomplete f.complete_email (f.email_tail win) (
      hold_incomplete f.complete_ipv4 (long_enough (f.ipv4_tail win)) (
        hold_incomplete f.is_ipv6_address (f.ipv6_tail win) (
          hold_incomplete f.complete_apikey (f.apikey_tail win) (
            hold_incomplete
              (λ run. f.complete_phone run || f.complete_id run || f.complete_bank run)
              (f.digits_tail win) [])))) in
    if truthy content then found else []

-- The text without the run at its end.
abbrev pub before_run : Text → Text → Text
before_run content run = take (length content - length run) content

-- The tail that is held back for the next chunk may be the beginning of a value.
unfoldable pub split_tail : Forms → Text → List Text → Text × Text
unfolding custom_tail_hold_run pii_tail_hold_run strip_token_forms
split_tail f content extra_prefixes =
    let custom = custom_tail_hold_run content extra_prefixes in
    let run = pii_tail_hold_run f content in
    if truthy custom
    then (strip_token_forms f (before_run content custom), custom)
    else if truthy run
    then (strip_token_forms f (before_run content run), run)
    else (strip_token_forms f content, [])

unfoldable pub split_rest : Forms → Text → List Text → Bool → Text × Text
unfolding split_tail
split_rest f content extra_prefixes hold_pii_tail =
    if hold_pii_tail then split_tail f content extra_prefixes else (strip_token_forms f content, [])

-- The last `__` may begin a token.
unfoldable pub split_token : Forms → Text → List Text → List Text → Bool → Text × Text
unfolding from_last split_rest starts_with
split_token f content tokens extra_prefixes hold_pii_tail = elim (from_last (codes "__") content) [
  | none ↦ split_rest f content extra_prefixes hold_pii_tail
  | some suffix ↦
      if any (λ t. starts_with t suffix) tokens
      then (strip_token_forms f (before_run content suffix), suffix)
      else split_rest f content extra_prefixes hold_pii_tail
]

unfoldable pub split_pii :
    Forms → Text → List Text → Option (List Text) → List Text → Bool → Text × Text
unfolding split_token
split_pii f content active none extra_prefixes hold_pii_tail =
    split_token f content active extra_prefixes hold_pii_tail
split_pii f content active (some pii_tokens) extra_prefixes hold_pii_tail = elim f.full_pii_token [
  | some (front, token) ↦ (strip_token_forms f front, token)
  | none ↦ split_token f content (active ++ pii_tokens) extra_prefixes hold_pii_tail
]

-- `_split_safe_hold`; the tokens of the tables are given as lists.
unfoldable pub split_safe_hold :
    Forms → Text → List Text → Option (List Text) → List Text → Bool → Text × Text
unfolding split_pii text_eq
split_safe_hold f [] active pii extra_prefixes hold_pii_tail = ([], [])
split_safe_hold f (c ∷ content) active pii extra_prefixes hold_pii_tail =
    let rest = split_pii f (c ∷ content) active pii extra_prefixes hold_pii_tail in
    elim f.full_token [
      | none ↦ rest
      | some (front, token) ↦
          if any (text_eq token) active then rest else (strip_token_forms f front, token)
    ]
