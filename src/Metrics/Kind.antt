-- ===== src/Metrics/Kind.antt =====
-- `sanitize_kind` and `metrics_bucket` of _metrics.py.
use credential_proxy.Prelude.{
  ℕ, ◌≡◌, refl, true, not, List, [], ◌∷◌, map, Text, ltb, leb, codes, any, if◌then◌else◌, text_eq,
  truthy, length, inl, inr, ◌⊎◌, Bool-cases, ◌==◌, if_both,
}
use credential_proxy.Decimal.{decimal}
use credential_proxy.PiiTokens.{has_part}

abbrev pub custom_other : Text
custom_other = codes "custom_other"

-- BUILTIN_KINDS
abbrev pub builtin_kinds : List Text
builtin_kinds =
    map codes ("phone" ∷ "id_card" ∷ "email" ∷ "bank_card" ∷ "ipv4" ∷ "ipv6" ∷ "api_key" ∷ [])

-- `sanitize_kind`; `lower` is `str.lower`.
unfoldable pub sanitize_kind : (Text → Text) → List Text → Text → Text
unfolding has_part text_eq
sanitize_kind lower custom_names raw_kind =
    let norm = lower raw_kind in
    if not (truthy raw_kind)
    then custom_other
    else if ltb 32 (length raw_kind)
    then custom_other
    else if has_part (codes "__") raw_kind
    then custom_other
    else if any (λ c. c == 0) raw_kind
    then custom_other
    else if any (text_eq norm) builtin_kinds
    then norm
    else if any (text_eq norm) (map lower custom_names)
    then norm
    else custom_other

-- A fixed kind, or the name of a rule.
abbrev pub IsStorable : (Text → Text) → List Text → Text → Type 0
IsStorable lower custom_names k =
    (k ≡ custom_other)
    ⊎ ((any (text_eq k) builtin_kinds ≡ true) ⊎ (any (text_eq k) (map lower custom_names) ≡ true))

-- LATENCY_BUCKETS without the last, which is infinite.
abbrev pub latency_buckets : List ℕ
latency_buckets = 10 ∷ 25 ∷ 50 ∷ 100 ∷ 200 ∷ 400 ∷ 800 ∷ 1500 ∷ 3000 ∷ 5000 ∷ 10000 ∷ []

-- `metrics_bucket` in whole milliseconds, written as `str` does: the first bound that is not less.
unfoldable pub bucket_from : List ℕ → ℕ → Text
unfolding decimal
bucket_from [] latency = codes "inf"
bucket_from (b ∷ bs) latency =
    let rest = bucket_from bs latency in if leb latency b then decimal b else rest

unfoldable pub metrics_bucket : ℕ → Text
unfolding bucket_from
metrics_bucket latency = bucket_from latency_buckets latency

whitelisted :
    (lower : Text → Text) (custom_names : List Text) (k : Text)
    → IsStorable lower custom_names (
        if any (text_eq k) builtin_kinds
        then k
        else if any (text_eq k) (map lower custom_names)
        then k
        else custom_other)
whitelisted lower custom_names k = elim (Bool-cases (any (text_eq k) builtin_kinds)) [
  | inl e ↦ rw e (inr (inl e))
  | inr e ↦ rw e (elim (Bool-cases (any (text_eq k) (map lower custom_names))) [
    | inl c ↦ rw c (inr (inr c))
    | inr c ↦ rw c (inl refl)
  ])
]

-- Whatever a rule or a model calls its hits, the kind that is stored is a built-in kind, the name
-- of a loaded rule in small letters, or `custom_other`.
pub sanitize_kind-IsStorable :
    (lower : Text → Text) (custom_names : List Text) (raw_kind : Text)
    → IsStorable lower custom_names (sanitize_kind lower custom_names raw_kind)
unfolding sanitize_kind
sanitize_kind-IsStorable lower custom_names raw_kind =
    if_both P (not (truthy raw_kind)) (inl refl) (
      if_both P (ltb 32 (length raw_kind)) (inl refl) (
        if_both P (has_part (codes "__") raw_kind) (inl refl) (
          if_both P (any (λ c. c == 0) raw_kind) (inl refl)
            (whitelisted lower custom_names (lower raw_kind)))))
  where
    P : Text → Type 0
    P = IsStorable lower custom_names
