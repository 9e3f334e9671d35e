-- ===== src/Audit/Dotdot/Removed.antt =====
-- `_normalize_dotdot` of _audit.py leaves no `/../`.
use credential_proxy.Prelude.{
  ℕ, ◌≡◌, refl, ap, subst, ◌∙◌, ◌⊎◌, inl, inr, true, false, List, [], ◌∷◌, ◌++◌, Text,
  if◌then◌else◌, truthy, starts_with, text_eq, drop, All, Bool-cases, arith, ◌==◌,
}
use credential_proxy.PiiTokens.{has_part}
use credential_proxy.Pii.Address.{split_on}
use credential_proxy.Audit.Dotdot.{
  dotdot_part, dotdot, slash, is_mark, initial_slashes, normpath, normalize_dotdot,
}
use credential_proxy.Audit.Dotdot.Words.{
  fix_path, fix_paths, fix_paths-mark, fix_paths-char, fix_path-none, fix_path-some, fix_paths-nil,
  starts_with-front, normalize_dotdot-fix_paths,
}
use credential_proxy.Audit.Dotdot.Resolved.{NotUp, pieces, normpath-NotUp}

-- A mark is no character of the part, so that nothing that starts with it goes over a mark.
starts_with-mark :
    (s p r : Text) (c : ℕ)
    → All (λ y. is_mark y ≡ false) p
    → is_mark c ≡ true
    → starts_with (s ++ (c ∷ r)) p ≡ true
    → starts_with s p ≡ true
unfolding starts_with
starts_with-mark s [] r c a m h = refl
starts_with-mark [] (y ∷ p) r c a m h = absurd (ground (arith, a.0))
starts_with-mark (x ∷ s) (y ∷ p) r c a m h = ground (arith, starts_with-mark s p r c a.1 m)

part_marks : All (λ y. is_mark y ≡ false) dotdot_part
part_marks = (refl, (refl, (refl, (refl, tt))))

has_part-mark :
    (w r : Text) (c : ℕ)
    → is_mark c ≡ true
    → has_part dotdot_part w ≡ false
    → has_part dotdot_part r ≡ false
    → has_part dotdot_part (w ++ (c ∷ r)) ≡ false
unfolding has_part
has_part-mark [] r c m h k = ground (arith, starts_with-mark [] dotdot_part r c part_marks m)
has_part-mark (x ∷ w) r c m h k =
    ground (arith, has_part-mark w r c m, starts_with-mark (x ∷ w) dotdot_part r c part_marks m)

-- A `/../` is a piece `..` behind the first slash.
split_on-part : (s : Text) → (split_on slash (dotdot_part ++ s)).1 ≡ dotdot ∷ pieces s
unfolding split_on pieces
split_on-part s = refl

up_not_NotUp : NotUp dotdot → ⊥
unfolding text_eq
up_not_NotUp e = cc

later-NotUp :
    (c : ℕ) (s : Text) → All NotUp (split_on slash (c ∷ s)).1 → All NotUp (split_on slash s).1
unfolding split_on
later-NotUp c s a = elim (Bool-cases (c == slash)) [ inl e ↦ (rw e at a).1 | inr e ↦ rw e at a ]

has_part-NotUp : (t : Text) → All NotUp (split_on slash t).1 → has_part dotdot_part t ≡ false
unfolding has_part starts_with
has_part-NotUp [] a = refl
has_part-NotUp (c ∷ s) a = elim (Bool-cases (starts_with (c ∷ s) dotdot_part)) [
  | inl e ↦
      let b : All NotUp (dotdot ∷ pieces (drop 4 (c ∷ s))) =
        subst (All NotUp)
          (ap (λ t. (split_on slash t).1) (starts_with-front (c ∷ s) e)
            ∙ split_on-part (drop 4 (c ∷ s)))
          a in
      absurd (up_not_NotUp b.0)
  | inr e ↦ ground (arith, has_part-NotUp s (later-NotUp c s a))
]

-- The paths between the marks; `word` is what stands since the last mark.
unfoldable pub paths_of : Text → Text → List Text
paths_of word [] = word ∷ []
paths_of word (c ∷ s) =
    let rest = paths_of (if is_mark c then [] else word ++ (c ∷ [])) s in
    if is_mark c then word ∷ rest else rest

-- The path has no `/../`, or it starts with a slash.
abbrev pub IsRooted : Text → Type 0
IsRooted word = (has_part dotdot_part word ≡ false) ⊎ (truthy (initial_slashes word) ≡ true)

has_part-fix_path : (word : Text) → IsRooted word → has_part dotdot_part (fix_path word) ≡ false
unfolding pieces
has_part-fix_path word r = elim (Bool-cases (has_part dotdot_part word)) [
  | inr e ↦ ap (has_part dotdot_part) (fix_path-none word e) ∙ e
  | inl e ↦ elim r [
    | inl n ↦ ap (has_part dotdot_part) (fix_path-none word n) ∙ n
    | inr rooted ↦
        ap (has_part dotdot_part) (fix_path-some word e)
        ∙ has_part-NotUp (normpath word) (normpath-NotUp word rooted).1
  ]
]

has_part-fix_paths :
    (word s : Text)
    → All IsRooted (paths_of word s)
    → has_part dotdot_part (fix_paths word s) ≡ false
unfolding paths_of
has_part-fix_paths word [] a =
    ap (has_part dotdot_part) (fix_paths-nil word) ∙ has_part-fix_path word a.0
has_part-fix_paths word (c ∷ s) a = elim (Bool-cases (is_mark c)) [
  | inl e ↦
      let b : IsRooted word × All IsRooted (paths_of [] s) = rw e at a in
      ap (has_part dotdot_part) (fix_paths-mark word c s e)
      ∙ has_part-mark (fix_path word) (fix_paths [] s) c e (has_part-fix_path word b.0)
          (has_part-fix_paths [] s b.1)
  | inr e ↦
      let b : All IsRooted (paths_of (word ++ (c ∷ [])) s) = rw e at a in
      ap (has_part dotdot_part) (fix_paths-char word c s e)
      ∙ has_part-fix_paths (word ++ (c ∷ [])) s b
]

-- Where each piece of a text without a quote, a tab or a blank that holds `/../` starts with a slash,
-- `_normalize_dotdot` leaves no `/../` in the text.
pub has_part-normalize_dotdot :
    (s : Text) → All IsRooted (paths_of [] s) → has_part dotdot_part (normalize_dotdot s) ≡ false
has_part-normalize_dotdot s a =
    ap (has_part dotdot_part) (normalize_dotdot-fix_paths s) ∙ has_part-fix_paths [] s a
