-- ===== src/Pii/Custom.antt =====
-- `_scan_custom` of _pii.py: the custom rules one after the other, each with what its run over
-- the chunks of the text gave, the counts of its time-outs and the rules that are switched off.
use credential_proxy.Prelude.{
  ℕ, ◌+◌, Bool, ◌&&◌, ◌||◌, none, some, List, [], ◌∷◌, ◌++◌, Text, Dict, ◌==◌, leb, any,
  if◌then◌else◌, text_eq, lookup, insert, erase,
}
use credential_proxy.Pii.Span.{Span, Range, overlaps_any}

-- How a rule's run ended.
pub data Ended : Type 0 where
  finished : Ended
  timed_out : Ended
  failed : Ended

-- A rule: its name, the matches found before the end, in the places of the whole text, and the end.
pub record Run : Type 0 where
  pub name : Text
  pub matches : List Span
  pub ended : Ended

-- `custom_strikes` and `custom_disabled`.
pub record Strikes : Type 0 where
  pub custom_strikes : Dict ℕ
  pub custom_disabled : List Text

-- PII_RE_DOS_STRIKES
abbrev pub max_strikes : ℕ
max_strikes = 3

-- `(s, e) in seen_spans`
abbrev pub is_seen : ℕ → ℕ → List Range → Bool
is_seen start stop seen = any (λ r. (r.0 == start) && (r.1 == stop)) seen

-- `_overlaps` of `_scan_custom`
abbrev pub is_taken : List Range → List Range → Span → Bool
is_taken protected creds m =
    overlaps_any m.start m.stop protected || overlaps_any m.start m.stop creds

-- The hits of one rule, and the spans seen after it.
unfoldable pub rule_hits :
    Text → List Range → List Range → List Range → List Span → List Span × List Range
unfolding overlaps_any
rule_hits name protected creds seen [] = ([], seen)
rule_hits name protected creds seen (m ∷ ms) =
    let skip = is_seen m.start m.stop seen || is_taken protected creds m in
    let seen' = if skip then seen else (m.start, m.stop) ∷ seen in
    let (hits, last) = rule_hits name protected creds seen' ms in
    if skip then (hits, last) else (record m { kind = name } ∷ hits, last)

-- The count of strikes after a run.
unfoldable pub count_strike : Run → Strikes → Strikes
count_strike run st = elim run.ended [
  | finished ↦ record st { custom_strikes = erase run.name st.custom_strikes }
  | failed ↦ st
  | timed_out ↦
      let strikes : ℕ = elim (lookup run.name st.custom_strikes) [ none ↦ 1 | some n ↦ n + 1 ] in
      record {
        custom_strikes = insert run.name strikes st.custom_strikes;
        custom_disabled =
            if leb max_strikes strikes then run.name ∷ st.custom_disabled else st.custom_disabled;
      }
]

-- `name in self.custom_disabled`
abbrev pub is_disabled : Text → Strikes → Bool
is_disabled name st = any (text_eq name) st.custom_disabled

-- The loop over the rules.
unfoldable pub run_rules :
    List Range → List Range → List Range → List Run → Strikes → List Span × Strikes
unfolding rule_hits count_strike text_eq
run_rules protected creds seen [] st = ([], st)
run_rules protected creds seen (run ∷ runs) st =
    let off = is_disabled run.name st in
    let (hits, seen') =
      if off then ([], seen) else rule_hits run.name protected creds seen run.matches in
    let st' = if off then st else count_strike run st in
    let (more, last) = run_rules protected creds seen' runs st' in (hits ++ more, last)
