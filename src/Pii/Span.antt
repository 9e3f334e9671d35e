-- ===== src/Pii/Span.antt =====
-- The spans that a scan of _pii.py reports, and when two of them overlap.
use credential_proxy.Prelude.{ℕ, Bool, ◌&&◌, ◌||◌, List, Text, ltb, leb, any}

-- One hit: `(kind, value, start, end)`.
pub record Span : Type 0 where
  pub kind : Text
  pub value : Text
  pub start : ℕ
  pub stop : ℕ

-- `(start, end)`
abbrev pub Range : Type 0
Range = ℕ × ℕ

-- `s <= start < e or s < end <= e or (start <= s and e <= end)`
unfoldable pub overlaps : ℕ → ℕ → Range → Bool
overlaps start stop (s, e) =
    (leb s start && ltb start e) || ((ltb s stop && leb stop e) || (leb start s && leb e stop))

unfoldable pub overlaps_any : ℕ → ℕ → List Range → Bool
unfolding overlaps
overlaps_any start stop rs = any (overlaps start stop) rs
