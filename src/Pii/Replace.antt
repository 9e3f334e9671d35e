-- ===== src/Pii/Replace.antt =====
-- `detect_and_redact` of _pii.py: the text with tokens, or with tags, in place of the selected spans.
pub mod Pieces
pub mod Spec
use credential_proxy.Prelude.{
  ℕ, zero, suc, ◌+◌, ◌-◌, Bool, true, false, Option, none, some, List, [], ◌∷◌, ◌++◌, Text, Dict,
  codes, if◌then◌else◌, take, drop, lookup, insert, contains,
}
use credential_proxy.Pii.Span.{Span}
use credential_proxy.Pii.Custom.{Strikes}
use credential_proxy.Pii.Scan.{Found, Dictionary, scan_spans}
use credential_proxy.Pii.Choose.{selected}
use credential_proxy.PiiTokens.{PiiTokens, Registered, registered, value_error, register}

-- The loop that builds `parts`, from `cursor` on.
unfoldable pub rebuild : (Span → Text) → ℕ → Text → List Span → Text
rebuild token cursor text [] = drop cursor text
rebuild token cursor text (x ∷ xs) =
    take (x.start - cursor) (drop cursor text) ++ (token x ++ rebuild token x.stop text xs)

-- `_mask_placeholder`, where the tag is `[REDACTED:kind]`.
unfoldable pub mask_placeholder : Span → Text
mask_placeholder x = codes "[REDACTED:" ++ (x.kind ++ codes "]")

-- `token_by_value`: one registration for each value that is new, the `n`th with the random part
-- `rand n`; none for the `ValueError`, which leaves what was registered before it.
unfoldable pub tokens_of :
    Bool → (ℕ → Text) → ℕ → List Span → Dict Text → PiiTokens → PiiTokens × Option (Dict Text)
tokens_of side rand n [] table s = (s, some table)
tokens_of side rand n (x ∷ xs) table s =
    let (s', r) = register x.value (rand n) side s in
    let again = tokens_of side rand n xs table s in
    if contains x.value table then again else elim r [
      | value_error ↦ (s', none)
      | registered tok ↦ tokens_of side rand (n + 1) xs (insert x.value tok table) s'
    ]

-- `token_by_value[value]`
unfoldable pub token_in : Dict Text → Span → Text
token_in table x = elim (lookup x.value table) [ none ↦ x.value | some tok ↦ tok ]

-- `detect_and_redact` without a table of tokens.
unfoldable pub tag_spans : Text → List Span → Text
unfolding rebuild mask_placeholder
tag_spans text [] = text
tag_spans text (x ∷ xs) = rebuild mask_placeholder 0 text (selected (x ∷ xs))

-- The text with the tokens of the table.
unfoldable pub put_tokens : Text → List Span → Option (Dict Text) → Option Text
unfolding rebuild token_in
put_tokens text chosen none = none
put_tokens text chosen (some table) = some (rebuild (token_in table) 0 text chosen)

-- The part of `detect_and_redact` behind the scan, with the table of tokens.
unfoldable pub redact_spans :
    Bool → (ℕ → Text) → Text → List Span → PiiTokens → PiiTokens × Option Text
unfolding tokens_of put_tokens
redact_spans side rand text [] s = (s, some text)
redact_spans side rand text (x ∷ xs) s =
    let chosen = selected (x ∷ xs) in
    let (s', table) = tokens_of side rand 0 chosen [] s in (s', put_tokens text chosen table)

-- `detect_and_redact`
unfoldable pub detect_and_redact :
    Found
    → Dictionary
    → Dict Text
    → Bool
    → (ℕ → Text)
    → Text
    → Strikes
    → PiiTokens
    → PiiTokens × Strikes × Option Text
unfolding redact_spans scan_spans
detect_and_redact f d p2t side rand text st s =
    let (spans, st') = scan_spans f d p2t text st in
    let (s', out) = redact_spans side rand text spans s in (s', st', out)
