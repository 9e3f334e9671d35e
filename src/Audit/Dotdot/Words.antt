-- ===== src/Audit/Dotdot/Words.antt =====
-- What `_normalize_dotdot` of _audit.py does: it rewrites each path that holds `/../`.
use credential_proxy.Prelude.{
  ℕ, zero, suc, ◌≤◌, ◌≡◌, refl, sym, ap, ◌∙◌, subst, true, false, Option, none, some, [], ◌∷◌, ◌++◌,
  Text, if◌then◌else◌, truthy, starts_with, length, take, drop, arith, Bool-cases, inl, inr,
  length-append, All,
}
use credential_proxy.PiiTokens.{has_part}
use credential_proxy.Audit.Dotdot.{
  dotdot_part, normpath, is_mark, ahead, find_dotdot, extend, scan_left, scan_right, dotdot_loop,
  normalize_dotdot,
}
use mathlib.Core.List.{append-nil, append_assoc}

-- A path between two marks: rewritten if it holds `/../`.
unfoldable pub fix_path : Text → Text
unfolding has_part normpath
fix_path word = if has_part dotdot_part word then normpath word else word

-- Every path of the text fixed, the marks kept; `word` is what stands since the last mark.
unfoldable pub fix_paths : Text → Text → Text
unfolding fix_path
fix_paths word [] = fix_path word
fix_paths word (c ∷ s) =
    let rest = fix_paths (if is_mark c then [] else word ++ (c ∷ [])) s in
    if is_mark c then fix_path word ++ (c ∷ rest) else rest

pub fix_paths-mark :
    (word : Text) (c : ℕ) (s : Text)
    → is_mark c ≡ true
    → fix_paths word (c ∷ s) ≡ fix_path word ++ (c ∷ fix_paths [] s)
unfolding fix_paths
fix_paths-mark word c s e = rw e refl

pub fix_paths-char :
    (word : Text) (c : ℕ) (s : Text)
    → is_mark c ≡ false
    → fix_paths word (c ∷ s) ≡ fix_paths (word ++ (c ∷ [])) s
unfolding fix_paths
fix_paths-char word c s e = rw e refl

pub fix_path-none : (word : Text) → has_part dotdot_part word ≡ false → fix_path word ≡ word
unfolding fix_path
fix_path-none word e = rw e refl

pub fix_path-some : (word : Text) → has_part dotdot_part word ≡ true → fix_path word ≡ normpath word
unfolding fix_path
fix_path-some word e = rw e refl

fix_path-nil : fix_path [] ≡ []
unfolding fix_path has_part starts_with
fix_path-nil = refl

-- What a text starts with and holds is so in front of more.
starts_with-append : (s t p : Text) → starts_with s p ≡ true → starts_with (s ++ t) p ≡ true
unfolding starts_with
starts_with-append s t [] h = refl
starts_with-append [] t (y ∷ p) h = absurd (cc)
starts_with-append (x ∷ s) t (y ∷ p) h = ground (arith, starts_with-append s t p)

has_part-front :
    (s t : Text) → has_part dotdot_part (s ++ t) ≡ false → has_part dotdot_part s ≡ false
unfolding has_part starts_with
has_part-front [] t h = refl
has_part-front (x ∷ s) t h =
    ground (arith, has_part-front s t, starts_with-append (x ∷ s) t dotdot_part)

has_part-back :
    (s t : Text) → has_part dotdot_part (s ++ t) ≡ false → has_part dotdot_part t ≡ false
unfolding has_part
has_part-back [] t h = h
has_part-back (x ∷ s) t h = has_part-back s t (ground arith)

has_part-middle : (s t : Text) → has_part dotdot_part (s ++ (dotdot_part ++ t)) ≡ true
unfolding has_part starts_with
has_part-middle [] t = refl
has_part-middle (x ∷ s) t = ground (arith, has_part-middle s t)

-- A text without `/../` stays.
fix_paths-none :
    (word s : Text) → has_part dotdot_part (word ++ s) ≡ false → fix_paths word s ≡ word ++ s
unfolding fix_paths
fix_paths-none word [] h = fix_path-none word (has_part-front word [] h) ∙ sym (append-nil word)
fix_paths-none word (c ∷ s) h = elim (Bool-cases (is_mark c)) [
  | inl e ↦
      fix_paths-mark word c s e
      ∙ ap (λ w. w ++ (c ∷ fix_paths [] s)) (fix_path-none word (has_part-front word (c ∷ s) h))
      ∙ ap (λ t. word ++ (c ∷ t))
          (fix_paths-none [] s (has_part-back (c ∷ []) s (has_part-back word (c ∷ s) h)))
  | inr e ↦
      fix_paths-char word c s e
      ∙ fix_paths-none (word ++ (c ∷ [])) s
          (ap (has_part dotdot_part) (append_assoc word (c ∷ []) s) ∙ h)
      ∙ append_assoc word (c ∷ []) s
]

scan_right-mark : (c : ℕ) (s : Text) → is_mark c ≡ true → scan_right (c ∷ s) ≡ ([], c ∷ s)
unfolding scan_right
scan_right-mark c s e = rw e refl

scan_right-char :
    (c : ℕ) (s : Text)
    → is_mark c ≡ false
    → scan_right (c ∷ s) ≡ (c ∷ (scan_right s).0, (scan_right s).1)
unfolding scan_right
scan_right-char c s e = rw e refl

pub fix_paths-nil : (word : Text) → fix_paths word [] ≡ fix_path word
unfolding fix_paths
fix_paths-nil word = refl

abbrev ended : Text → Text × Text → Text
ended word (rest_of_word, s) = fix_path (word ++ rest_of_word) ++ fix_paths [] s

ended-nil : (word s : Text) → ended word ([], s) ≡ fix_path word ++ fix_paths [] s
ended-nil word s = ap (λ w. fix_path w ++ fix_paths [] s) (append-nil word)

scan_right-nil : scan_right [] ≡ ([], [])
unfolding scan_right
scan_right-nil = refl

-- The scan to the right ends the path.
fix_paths-scan_right : (word s : Text) → fix_paths word s ≡ ended word (scan_right s)
fix_paths-scan_right word [] =
    fix_paths-nil word
    ∙ sym (append-nil (fix_path word))
    ∙ ap (λ t. fix_path word ++ t) (sym (fix_paths-nil [] ∙ fix_path-nil))
    ∙ sym (ended-nil word [])
    ∙ ap (ended word) (sym scan_right-nil)
fix_paths-scan_right word (c ∷ s) = elim (Bool-cases (is_mark c)) [
  | inl e ↦
      fix_paths-mark word c s e
      ∙ ap (λ t. fix_path word ++ (t ++ (c ∷ fix_paths [] s))) (sym fix_path-nil)
      ∙ ap (λ t. fix_path word ++ t) (sym (fix_paths-mark [] c s e))
      ∙ sym (ended-nil word (c ∷ s))
      ∙ ap (ended word) (sym (scan_right-mark c s e))
  | inr e ↦
      fix_paths-char word c s e
      ∙ fix_paths-scan_right (word ++ (c ∷ [])) s
      ∙ ap (λ w. fix_path w ++ fix_paths [] (scan_right s).1)
          (append_assoc word (c ∷ []) (scan_right s).0)
      ∙ ap (ended word) (sym (scan_right-char c s e))
]

-- Behind the scan to the left, with what stood since the last mark before it.
abbrev behind : Text → Text × Text → Text → Text
behind word (front, stem) s =
    if truthy front then word ++ (front ++ fix_paths stem s) else fix_paths (word ++ stem) s

behind-extend-char :
    (word : Text) (c : ℕ) (r : Text × Text) (s : Text)
    → is_mark c ≡ false
    → behind (word ++ (c ∷ [])) r s ≡ behind word (extend c r) s
behind-extend-char word c ([], stem) s e =
    rw e (ap (λ w. fix_paths w s) (append_assoc word (c ∷ []) stem))
behind-extend-char word c (d ∷ front, stem) s e = append_assoc word (c ∷ []) _

behind-extend-mark :
    (word : Text) (c : ℕ) (r : Text × Text) (s : Text)
    → is_mark c ≡ true
    → word ++ (c ∷ behind [] r s) ≡ behind word (extend c r) s
behind-extend-mark word c ([], stem) s e = rw e refl
behind-extend-mark word c (d ∷ front, stem) s e = refl

fix_paths-scan_left :
    (word before s : Text)
    → has_part dotdot_part (word ++ before) ≡ false
    → fix_paths word (before ++ s) ≡ behind word (scan_left before) s
unfolding scan_left
fix_paths-scan_left word [] s h = ap (λ w. fix_paths w s) (sym (append-nil word))
fix_paths-scan_left word (c ∷ before) s h = elim (Bool-cases (is_mark c)) [
  | inl e ↦
      fix_paths-mark word c (before ++ s) e
      ∙ ap (λ w. w ++ (c ∷ fix_paths [] (before ++ s)))
          (fix_path-none word (has_part-front word (c ∷ before) h))
      ∙ ap (λ t. word ++ (c ∷ t))
          (fix_paths-scan_left [] before s
            (has_part-back (c ∷ []) before (has_part-back word (c ∷ before) h)))
      ∙ behind-extend-mark word c (scan_left before) s e
  | inr e ↦
      fix_paths-char word c (before ++ s) e
      ∙ fix_paths-scan_left (word ++ (c ∷ [])) before s
          (ap (has_part dotdot_part) (append_assoc word (c ∷ []) before) ∙ h)
      ∙ behind-extend-char word c (scan_left before) s e
]

behind-nil : (r : Text × Text) (s : Text) → behind [] r s ≡ r.0 ++ fix_paths r.1 s
behind-nil ([], stem) s = refl
behind-nil (c ∷ front, stem) s = refl

-- What `find_dotdot` finds, for its answer on `s`.
data IsFound (s : Text) : Option (Text × Text) → Type 0 where
  nowhere : has_part dotdot_part s ≡ false → IsFound s none
  found_at :
      (before after : Text)
      → s ≡ before ++ (dotdot_part ++ after)
      → has_part dotdot_part before ≡ false
      → IsFound s (some (before, dotdot_part ++ after))

pub starts_with-front : (s : Text) → starts_with s dotdot_part ≡ true → s ≡ dotdot_part ++ drop 4 s
unfolding starts_with
starts_with-front [] h = absurd (cc)
starts_with-front (a ∷ []) h = ground arith
starts_with-front (a ∷ (b ∷ [])) h = ground arith
starts_with-front (a ∷ (b ∷ (c ∷ []))) h = ground arith
starts_with-front (a ∷ (b ∷ (c ∷ (d ∷ s)))) h = ground arith

IsFound-ahead :
    (c : ℕ) (s : Text) (o : Option (Text × Text))
    → IsFound s o
    → starts_with (c ∷ s) dotdot_part ≡ false
    → IsFound (c ∷ s) (ahead c o)
unfolding has_part
IsFound-ahead c s none (nowhere h) e = nowhere (ground arith)
IsFound-ahead c s _ (found_at before after q h) e = found_at (c ∷ before) after (ap (◌∷◌ c) q) (
    ground (
      arith,
      starts_with-append (c ∷ before) (dotdot_part ++ after) dotdot_part,
      ap (λ t. starts_with (c ∷ t) dotdot_part) q,
    ))

find_dotdot-IsFound : (s : Text) → IsFound s (find_dotdot s)
unfolding find_dotdot has_part starts_with
find_dotdot-IsFound [] = nowhere refl
find_dotdot-IsFound (c ∷ s) = elim (Bool-cases (starts_with (c ∷ s) dotdot_part)) [
  | inl e ↦ rw e (
      subst (λ t. IsFound (c ∷ s) (some ([], t))) (sym (starts_with-front (c ∷ s) e))
        (found_at [] (drop 4 (c ∷ s)) (starts_with-front (c ∷ s) e) refl))
  | inr e ↦ rw e (IsFound-ahead c s (find_dotdot s) (find_dotdot-IsFound s) e)
]

fix_paths-word :
    (word w s : Text)
    → All (λ c. is_mark c ≡ false) w
    → fix_paths word (w ++ s) ≡ fix_paths (word ++ w) s
fix_paths-word word [] s h = ap (λ t. fix_paths t s) (sym (append-nil word))
fix_paths-word word (c ∷ w) s h =
    fix_paths-char word c (w ++ s) h.0
    ∙ fix_paths-word (word ++ (c ∷ [])) w s h.1
    ∙ ap (λ t. fix_paths t s) (append_assoc word (c ∷ []) w)

length-scan_right : (s : Text) → length (scan_right s).1 ≤ length s
length-scan_right [] = rw scan_right-nil (omega arith)
length-scan_right (c ∷ s) = elim (Bool-cases (is_mark c)) [
  | inl e ↦ rw (scan_right-mark c s e) (omega arith)
  | inr e ↦ rw (scan_right-char c s e) (omega (arith, length-scan_right s))
]

-- The path around the place, as the loop puts it together.
found-fix_paths :
    (before after : Text)
    → has_part dotdot_part before ≡ false
    → let l = scan_left before in
      let r = scan_right after in
      fix_paths [] (before ++ (dotdot_part ++ after))
      ≡ l.0 ++ (normpath (l.1 ++ (dotdot_part ++ r.0)) ++ fix_paths [] r.1)
found-fix_paths before after e =
    let stem = (scan_left before).1 in
    let r = scan_right after in
    let whole = append_assoc stem dotdot_part r.0 in
    fix_paths-scan_left [] before (dotdot_part ++ after) e
    ∙ behind-nil (scan_left before) (dotdot_part ++ after)
    ∙ ap (λ t. (scan_left before).0 ++ t)
        (fix_paths-word stem dotdot_part after (refl, (refl, (refl, (refl, tt))))
          ∙ fix_paths-scan_right (stem ++ dotdot_part) after
          ∙ ap (λ w. fix_path w ++ fix_paths [] r.1) whole
          ∙ ap (λ t. t ++ fix_paths [] r.1)
              (fix_path-some (stem ++ (dotdot_part ++ r.0)) (has_part-middle stem r.0)))

shorter :
    (n : ℕ) (s before after : Text)
    → length s ≤ suc n
    → s ≡ before ++ (dotdot_part ++ after)
    → length (scan_right after).1 ≤ n
shorter n s before after h q =
    omega
      (arith, h, ap length q, length-append before (dotdot_part ++ after), length-scan_right after)

-- One round of the loop, for what was found.
round-fix_paths :
    (n : ℕ) (s : Text) (o : Option (Text × Text))
    → length s ≤ suc n
    → IsFound s o
    → ((t : Text) → length t ≤ n → dotdot_loop n t ≡ fix_paths [] t)
    → (elim o [
      | none ↦ s
      | some (before, found) ↦
          let (front, stem) = scan_left before in
          let (word, rest) = scan_right (drop 4 found) in
          front ++ (normpath (stem ++ (take 4 found ++ word)) ++ dotdot_loop n rest)
    ])
      ≡ fix_paths [] s
round-fix_paths n s none h (nowhere e) ih = sym (fix_paths-none [] s e)
round-fix_paths n s _ h (found_at before after q e) ih =
    ap
      (λ t.
        (scan_left before).0
        ++ (normpath ((scan_left before).1 ++ (dotdot_part ++ (scan_right after).0)) ++ t))
      (ih (scan_right after).1 (shorter n s before after h q))
    ∙ sym (found-fix_paths before after e)
    ∙ ap (fix_paths []) (sym q)

pub dotdot_loop-fix_paths : (n : ℕ) (s : Text) → length s ≤ n → dotdot_loop n s ≡ fix_paths [] s
unfolding dotdot_loop
dotdot_loop-fix_paths zero [] h = sym (fix_paths-nil [] ∙ fix_path-nil)
dotdot_loop-fix_paths zero (c ∷ s) h = absurd (omega (arith, h))
dotdot_loop-fix_paths (suc n) s h =
    round-fix_paths n s (find_dotdot s) h (find_dotdot-IsFound s) (dotdot_loop-fix_paths n)

-- `_normalize_dotdot` ends, and its result is the text in which each longest piece without a quote,
-- a tab or a blank that holds `/../` is replaced by its `normpath`, and all else stays.
pub normalize_dotdot-fix_paths : (s : Text) → normalize_dotdot s ≡ fix_paths [] s
unfolding normalize_dotdot
normalize_dotdot-fix_paths s = elim (Bool-cases (has_part dotdot_part s)) [
  | inl e ↦ rw e (dotdot_loop-fix_paths (length s) s (omega arith))
  | inr e ↦ rw e (sym (fix_paths-none [] s e))
]
