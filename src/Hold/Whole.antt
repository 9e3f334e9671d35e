-- ===== src/Hold/Whole.antt =====
-- `_split_safe_hold` of _llm.py loses nothing, and holds a token that is cut.
use credential_proxy.Prelude.{
  ◌≡◌, subst, Bool, false, true, Option, none, some, List, [], ◌∷◌, ◌++◌, Text, any, if◌then◌else◌,
  if_both, starts_with, truthy, codes, text_eq,
}
use credential_proxy.Hold.{
  from_last, custom_tail_hold_run, Forms, before_run, split_tail, split_rest, split_token,
  split_pii, split_safe_hold, strip_token_forms, pii_tail_hold_run,
}
use credential_proxy.Hold.Tail.{
  newline, ends_newline, ends_newline-append2, FoundAt, found_end, found_newline, AreAnchored,
  pii_tail_hold_run-Ends,
}
use credential_proxy.Hold.Splits.{
  Ends, IsLast, present, from_last-IsLast, custom_tail_hold_run-Ends, Splits, split, Splits-run,
  Splits-all,
}

module _ (f : Forms) where
  abbrev strip : Text → Text
  strip = strip_token_forms f

  abbrev Whole : Text → Text × Text → Type 0
  Whole = Splits strip

  split_tail-Whole :
      (content : Text) (hints : List Text)
      → Ends (pii_tail_hold_run f content) content
      → Whole content (split_tail f content hints)
  unfolding split_tail
  split_tail-Whole content hints e =
      if_both (Whole content) (truthy (custom_tail_hold_run content hints))
        (Splits-run strip (custom_tail_hold_run content hints) content
          (custom_tail_hold_run-Ends content hints))
        (if_both (Whole content) (truthy (pii_tail_hold_run f content))
          (Splits-run strip (pii_tail_hold_run f content) content e) (Splits-all strip content))

  split_rest-Whole :
      (content : Text) (hints : List Text) (b : Bool)
      → Ends (pii_tail_hold_run f content) content
      → Whole content (split_rest f content hints b)
  unfolding split_rest
  split_rest-Whole content hints b e =
      if_both (Whole content) b (split_tail-Whole content hints e) (Splits-all strip content)

  or_rest-Whole :
      (content : Text) (o : Option Text) (tokens hints : List Text) (b : Bool)
      → IsLast content o
      → Ends (pii_tail_hold_run f content) content
      → Whole content (elim o [
        | none ↦ split_rest f content hints b
        | some suffix ↦
            if any (λ t. starts_with t suffix) tokens
            then (strip (before_run content suffix), suffix)
            else split_rest f content hints b
      ])
  or_rest-Whole content none tokens hints b h e = split_rest-Whole content hints b e
  or_rest-Whole content _ tokens hints b (present suffix h) e =
      if_both (Whole content) (any (λ t. starts_with t suffix) tokens)
        (Splits-run strip suffix content h) (split_rest-Whole content hints b e)

  split_token-Whole :
      (content : Text) (tokens hints : List Text) (b : Bool)
      → Ends (pii_tail_hold_run f content) content
      → Whole content (split_token f content tokens hints b)
  unfolding split_token
  split_token-Whole content tokens hints b e =
      or_rest-Whole content (from_last (codes "__") content) tokens hints b
        (from_last-IsLast (codes "__") content) e

  or_found-Whole :
      (content : Text) (o : Option (Text × Text)) (r : Text × Text)
      → ends_newline content ≡ false
      → FoundAt content o
      → Whole content r
      → Whole content (elim o [ some (front, token) ↦ (strip front, token) | none ↦ r ])
  or_found-Whole content none r n h w = w
  or_found-Whole _ _ r n (found_end front token) w = split front token
  or_found-Whole _ _ r n (found_newline front token) w =
      let last : ends_newline (front ++ (token ++ newline)) ≡ true =
        ends_newline-append2 front token in
      absurd (cc)

  split_pii-Whole :
      (content : Text) (active : List Text) (pii : Option (List Text)) (hints : List Text)
      (b : Bool)
      → ends_newline content ≡ false
      → FoundAt content f.full_pii_token
      → Ends (pii_tail_hold_run f content) content
      → Whole content (split_pii f content active pii hints b)
  unfolding split_pii
  split_pii-Whole content active none hints b n h e = split_token-Whole content active hints b e
  split_pii-Whole content active (some pii) hints b n h e =
      or_found-Whole content f.full_pii_token (split_token f content (active ++ pii) hints b) n h
        (split_token-Whole content (active ++ pii) hints b e)

  or_active-Whole :
      (content : Text) (o : Option (Text × Text)) (active : List Text) (r : Text × Text)
      → ends_newline content ≡ false
      → FoundAt content o
      → Whole content r
      → Whole content (elim o [
        | none ↦ r
        | some (front, token) ↦ if any (text_eq token) active then r else (strip front, token)
      ])
  or_active-Whole content none active r n h w = w
  or_active-Whole _ _ active r n (found_end front token) w =
      if_both (Whole (front ++ token)) (any (text_eq token) active) w (split front token)
  or_active-Whole _ _ active r n (found_newline front token) w =
      let last : ends_newline (front ++ (token ++ newline)) ≡ true =
        ends_newline-append2 front token in
      absurd (cc)

  -- Where a text does not end in a newline, and what the expressions find stands where `$` says,
  -- `_split_safe_hold` cuts it in two: what is held is its end, and what goes out is all that stands
  -- in front of it, stripped of token forms.
  pub split_safe_hold-Splits :
      (content : Text) (active : List Text) (pii : Option (List Text)) (hints : List Text)
      (b : Bool)
      → ends_newline content ≡ false
      → FoundAt content f.full_token
      → FoundAt content f.full_pii_token
      → AreAnchored f
      → strip_token_forms f [] ≡ []
      → Splits (strip_token_forms f) content (split_safe_hold f content active pii hints b)
  unfolding split_safe_hold
  split_safe_hold-Splits [] active pii hints b n g h e z =
      subst (λ t. Whole [] (t, [])) z (split [] [])
  split_safe_hold-Splits (c ∷ content) active pii hints b n g h e z =
      or_active-Whole (c ∷ content) f.full_token active
        (split_pii f (c ∷ content) active pii hints b) n g
        (split_pii-Whole (c ∷ content) active pii hints b n h
          (pii_tail_hold_run-Ends (c ∷ content) n f e))
