-- ===== src/Substitute/Unique.antt =====
-- The description of the replacement determines the result.
use credential_proxy.Prelude.{
  ℕ, ◌≤◌, ◌≡◌, refl, ap, sym, ◌∙◌, subst, true, [], ◌∷◌, ◌++◌, Text, Dict, length, drop,
  starts_with, lookup, inl, inr, ◌⊎◌, arith,
}
use credential_proxy.Substitute.Spec.{NoKey, IsLongest, Replaced, done, keep, swap, NoEmptyKey}

-- Two mappings that look up alike.
abbrev pub SameLookup : Dict Text → Dict Text → Type 0
SameLookup m m' = (w : Text) → lookup w m ≡ lookup w m'

starts_with_prefix_eq :
    (t w x : Text) → starts_with t w ≡ true → starts_with t x ≡ true → length w ≡ length x → w ≡ x
unfolding starts_with
starts_with_prefix_eq t [] [] p q e = refl
starts_with_prefix_eq t [] (y ∷ x) p q e = absurd (omega arith)
starts_with_prefix_eq t (v ∷ w) [] p q e = absurd (omega arith)
starts_with_prefix_eq [] (v ∷ w) (y ∷ x) p q e = absurd (cc)
starts_with_prefix_eq (c ∷ t) (v ∷ w) (y ∷ x) p q e = ground (arith, starts_with_prefix_eq t w x)

-- How a derivation ends, with the indices as equations.
invert :
    {m : Dict Text} {t out : Text}
    → Replaced m t out
    → ((t ≡ []) × (out ≡ []))
      ⊎ (((c : ℕ) × (s rest : Text) × (t ≡ c ∷ s)
            × NoKey m t
            × Replaced m s rest
            × (out ≡ c ∷ rest))
          ⊎ ((w tok rest : Text) × IsLongest m t w tok
              × Replaced m (drop (length w) t) rest
              × (out ≡ tok ++ rest)))
invert done = inl (refl, refl)
invert (keep c {s} {out} none_here r) = inr (inl (c, s, out, refl, none_here, r, refl))
invert (swap w tok {t} {out} long r e) = inr (inr (w, tok, out, long, r, e))

front_nil : (w : Text) → starts_with [] w ≡ true → w ≡ []
unfolding starts_with
front_nil [] h = refl
front_nil (c ∷ w) h = absurd (cc)

module _ (m m' : Dict Text) (same : SameLookup m m') where
  longest_unique :
      (t w tok w' tok' : Text)
      → IsLongest m t w tok
      → IsLongest m' t w' tok'
      → (w' ≡ w) × (tok' ≡ tok)
  longest_unique t w tok w' tok' a b =
      let le : length w ≤ length w' = b.longest w tok (sym (same w) ∙ a.held) a.front in
      let ge : length w' ≤ length w = a.longest w' tok' (same w' ∙ b.held) b.front in
      let e : w' ≡ w = starts_with_prefix_eq t w' w b.front a.front (omega arith) in
      (e, ground (arith, same w, a.held, b.held))

  not_both : (t w tok : Text) → NoKey m t → IsLongest m' t w tok → ⊥
  not_both t w tok free b = ground (arith, free w tok (same w ∙ b.held), b.front)

  not_both' : (t w tok : Text) → NoKey m' t → IsLongest m t w tok → ⊥
  not_both' t w tok free a = ground (arith, free w tok (sym (same w) ∙ a.held), a.front)

  -- The description leaves no choice: what it says of one text, for two mappings that look up
  -- alike and have no empty key, is one result.
  pub Replaced-unique :
      {t out out' : Text} → NoEmptyKey m → Replaced m t out → Replaced m' t out' → out ≡ out'
  Replaced-unique n done r' = elim (invert r') [
    | inl (a, b) ↦ sym b
    | inr (inl (c, s, rest, e, f, q, o)) ↦ absurd (cc)
    | inr (inr (w, tok, rest, long, q, o)) ↦
        absurd (ground (arith, front_nil w long.front, same w, long.held, n))
  ]
  Replaced-unique n (keep c {s} {out} free r) r' = elim (invert r') [
    | inl (a, b) ↦ absurd (cc)
    | inr (inl (d, u, rest, e, f, q, o)) ↦
        let tails : u ≡ s = cc in
        ap (◌∷◌ c) (Replaced-unique n r (subst (λ x. Replaced m' x rest) tails q)) ∙ cc
    | inr (inr (w, tok, rest, long, q, o)) ↦ absurd (not_both (c ∷ s) w tok free long)
  ]
  Replaced-unique n (swap w tok {t} {out} long r e) r' = elim (invert r') [
    | inl (a, b) ↦ absurd (
        ground
          (arith, front_nil w (subst (λ x. starts_with x w ≡ true) a long.front), long.held, n))
    | inr (inl (d, u, rest, at, f, q, o)) ↦ absurd (not_both' t w tok f long)
    | inr (inr (x, y, rest, long', q, o)) ↦
        let (ex, ey) = longest_unique t w tok x y long long' in
        let ih : out ≡ rest =
          Replaced-unique n r (subst (λ z. Replaced m' (drop (length z) t) rest) ex q) in
        cc
  ]
