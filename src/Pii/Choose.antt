-- ===== src/Pii/Choose.antt =====
-- The choice of `detect_and_redact` among the spans that overlap: the longest first.
pub mod Clear
use credential_proxy.Prelude.{
  ℕ, ◌-◌, Bool, true, false, ◌&&◌, ◌||◌, List, [], ◌∷◌, ◌==◌, ltb, leb, if◌then◌else◌, sort_by, ◌≡◌,
  refl,
}
use credential_proxy.Pii.Span.{Span, Range, overlaps_any}

abbrev pub width : Span → ℕ
width x = x.stop - x.start

-- The order of the key `(-(end - start), start)`.
abbrev pub longer_first : Span → Span → Bool
longer_first x y = ltb (width y) (width x) || ((width x == width y) && leb x.start y.start)

-- The order of the key `start`.
abbrev pub earlier_first : Span → Span → Bool
earlier_first x y = leb x.start y.start

-- The loop over the sorted spans, with the ranges taken so far.
unfoldable pub choose : List Range → List Span → List Span
unfolding overlaps_any
choose occupied [] = []
choose occupied (x ∷ xs) =
    let skip = overlaps_any x.start x.stop occupied in
    let rest = choose (if skip then occupied else (x.start, x.stop) ∷ occupied) xs in
    if skip then rest else x ∷ rest

-- `selected`
unfoldable pub selected : List Span → List Span
unfolding choose sort_by
selected spans = sort_by earlier_first (choose [] (sort_by longer_first spans))

pub selected-nil : selected [] ≡ []
unfolding selected choose sort_by
selected-nil = refl
