-- ===== src/Pii/Replace/Pieces.antt =====
-- What the rebuilt text of _pii.py is: the gaps of the text with the tokens between them.
use credential_proxy.Prelude.{
  ℕ, zero, suc, ◌+◌, ◌-◌, ◌≤◌, ◌≡◌, refl, sym, ap, ◌∙◌, List, [], ◌∷◌, ◌++◌, Text, take, drop,
  arith, All, inl, inr, ◌⊎◌,
}
use credential_proxy.Pii.Span.{Span, Range}
use credential_proxy.Pii.Choose.Clear.{InOrder}
use credential_proxy.Pii.Replace.{rebuild}
use mathlib.Core.List.{append_assoc}

take-drop : (n : ℕ) (s : Text) → take n s ++ drop n s ≡ s
take-drop zero s = refl
take-drop (suc n) [] = refl
take-drop (suc n) (c ∷ s) = ap (◌∷◌ c) (take-drop n s)

drop_nil : (n : ℕ) → drop {A = ℕ} n [] ≡ []
drop_nil zero = refl
drop_nil (suc n) = refl

drop_add : (n m : ℕ) (s : Text) → drop (n + m) s ≡ drop m (drop n s)
drop_add zero m s = ap (λ k. drop k s) (omega arith)
drop_add (suc n) m [] = drop_nil (suc n + m) ∙ sym (drop_nil m)
drop_add (suc n) m (c ∷ s) =
    ap (λ k. drop k (c ∷ s)) (let e : suc n + m ≡ suc (n + m) = omega arith in e) ∙ drop_add n m s

take_nil : (n : ℕ) → take {A = ℕ} n [] ≡ []
take_nil zero = refl
take_nil (suc n) = refl

take_add : (n m : ℕ) (s : Text) → take (n + m) s ≡ take n s ++ take m (drop n s)
take_add zero m s = ap (λ k. take k s) (omega arith)
take_add (suc n) m [] = take_nil (suc n + m) ∙ sym (take_nil m)
take_add (suc n) m (c ∷ s) =
    ap (λ k. take k (c ∷ s)) (let e : suc n + m ≡ suc (n + m) = omega arith in e)
    ∙ ap (◌∷◌ c) (take_add n m s)

-- `text[a:b]`
abbrev pub slice : ℕ → ℕ → Text → Text
slice a b text = take (b - a) (drop a text)

slice-drop : (a b : ℕ) (text : Text) → a ≤ b → slice a b text ++ drop b text ≡ drop a text
slice-drop a b text h =
    ap (λ t. slice a b text ++ t) (ap (λ k. drop k text) (omega arith) ∙ drop_add a (b - a) text)
    ∙ take-drop (b - a) (drop a text)

slice-slice :
    (a b c : ℕ) (text : Text) → a ≤ b → b ≤ c → slice a c text ≡ slice a b text ++ slice b c text
slice-slice a b c text h k =
    ap (λ n. take n (drop a text)) (let e : c - a ≡ (b - a) + (c - b) = omega arith in e)
    ∙ take_add (b - a) (c - b) (drop a text)
    ∙ ap (λ t. slice a b text ++ take (c - b) t)
        (sym (drop_add a (b - a) text)
          ∙ ap (λ k. drop k text) (let e : a + (b - a) ≡ b = omega arith in e))

-- The value is what stands between the ends.
abbrev pub Fits : Text → Span → Type 0
Fits text x = (x.start ≤ x.stop) × (x.value ≡ slice x.start x.stop text)

-- With its own value in place of each span, the text comes back.
pub rebuild-values :
    (cursor : ℕ) (text : Text) (xs : List Span)
    → All (Fits text) xs
    → InOrder xs
    → All (λ x. cursor ≤ x.start) xs
    → rebuild (λ x. x.value) cursor text xs ≡ drop cursor text
unfolding rebuild
rebuild-values cursor text [] f o c = refl
rebuild-values cursor text (x ∷ xs) f o c =
    ap (λ t. slice cursor x.start text ++ (x.value ++ t))
      (rebuild-values x.stop text xs f.1 o.1 o.0)
    ∙ ap (λ t. slice cursor x.start text ++ (t ++ drop x.stop text)) f.0.1
    ∙ ap (◌++◌ (slice cursor x.start text)) (slice-drop x.start x.stop text f.0.0)
    ∙ slice-drop cursor x.start text c.0

-- The span lies in front of the range or behind it.
abbrev pub Beside : Range → Span → Type 0
Beside (a, b) x = (b ≤ x.start) ⊎ (x.stop ≤ a)

-- A range beside every span stands in the rebuilt text as it was.
pub rebuild_keeps :
    (token : Span → Text) (cursor a b : ℕ) (text : Text) (xs : List Span)
    → a ≤ b
    → cursor ≤ a
    → InOrder xs
    → All (Beside (a, b)) xs
    → (before : Text) × (after : Text) × (rebuild token cursor text xs
        ≡ before ++ (slice a b text ++ after))
unfolding rebuild
rebuild_keeps token cursor a b text [] h c o f = (
  slice cursor a text,
  drop b text,
  sym (ap (◌++◌ (slice cursor a text)) (slice-drop a b text h) ∙ slice-drop cursor a text c),
)
rebuild_keeps token cursor a b text (x ∷ xs) h c o f = elim f.0 [
  | inr e ↦
      let (before, after, q) = rebuild_keeps token x.stop a b text xs h e o.1 f.1 in
      let gap = slice cursor x.start text in
      (
        gap ++ (token x ++ before),
        after,
        ap (λ t. gap ++ (token x ++ t)) q
            ∙ ap (◌++◌ gap) (sym (append_assoc (token x) before (slice a b text ++ after)))
            ∙ sym (append_assoc gap (token x ++ before) (slice a b text ++ after)),
      )
  | inl e ↦
      let rest = token x ++ rebuild token x.stop text xs in
      (
        slice cursor a text,
        slice b x.start text ++ rest,
        ap (λ t. t ++ rest)
              (slice-slice cursor a x.start text c (omega arith)
                ∙ ap (◌++◌ (slice cursor a text)) (slice-slice a b x.start text h e))
            ∙ append_assoc (slice cursor a text) (slice a b text ++ slice b x.start text) rest
            ∙ ap (◌++◌ (slice cursor a text))
                (append_assoc (slice a b text) (slice b x.start text) rest),
      )
]
