-- ===== src/Substitute.antt =====
-- The replacement that `_redact` and `_restore` of _token.py make: a regular expression that
-- lists the keys of a dict, escaped, the longest first, and one pass of `re.sub` over the text.
pub mod Sorted
pub mod Spec
pub mod Unique
use credential_proxy.Prelude.{
  ℕ, zero, suc, ◌-◌, Bool, true, false, Option, none, some, List, [], ◌∷◌, ◌++◌, map, Text, Dict,
  leb, if◌then◌else◌, length, starts_with, lookup,
}

-- `sorted(…, key=len, reverse=True)`, which is stable: a new item goes behind those as long.
unfoldable pub insert_by_length : Text → List Text → List Text
insert_by_length w [] = w ∷ []
insert_by_length w (x ∷ xs) =
    let rest = insert_by_length w xs in if leb (length x) (length w) then w ∷ x ∷ xs else x ∷ rest

-- Inserting from the last item on keeps the order of items of one length.
unfoldable pub sort_by_length : List Text → List Text
unfolding insert_by_length
sort_by_length [] = []
sort_by_length (w ∷ ws) = insert_by_length w (sort_by_length ws)

abbrev pub keys : Dict Text → List Text
keys = map (λ e. e.0)

-- The first alternative of the expression that matches at the front of the text.
unfoldable pub first_alternative : List Text → Text → Option Text
first_alternative [] t = none
first_alternative (w ∷ ws) t =
    let rest = first_alternative ws t in if starts_with t w then some w else rest

-- `repl.get(m.group(0), m.group(0))`
unfoldable pub replacement : Dict Text → Text → Text
replacement m w = elim (lookup w m) [ none ↦ w | some t ↦ t ]

-- `pat.sub(…, text)`: left to right; `skip` counts the characters of a match that are left.
unfoldable pub sub_from : List Text → Dict Text → ℕ → Text → Text
unfolding first_alternative replacement
sub_from alts m skip [] = []
sub_from alts m (suc skip) (c ∷ s) = sub_from alts m skip s
sub_from alts m zero (c ∷ s) = elim (first_alternative alts (c ∷ s)) [
  | none ↦ c ∷ sub_from alts m zero s
  | some w ↦ replacement m w ++ sub_from alts m (length w - 1) s
]

-- `_redact` with an explicit mapping, and `_restore`.
unfoldable pub substitute : Dict Text → Text → Text
unfolding sub_from sort_by_length
substitute [] text = text
substitute (e ∷ m) text = sub_from (sort_by_length (keys (e ∷ m))) (e ∷ m) 0 text
