-- ===== src/Substitute/Spec.antt =====
-- An independent description of the replacement, and the proof that the code meets it.
use credential_proxy.Prelude.{
  ℕ, zero, suc, ◌-◌, ◌≤◌, ◌≡◌, sym, subst, true, false, none, some, [], ◌∷◌, ◌++◌, Text, Dict,
  length, drop, starts_with, lookup, Option-cases, inl, inr, arith,
}
use credential_proxy.Substitute.{
  sort_by_length, keys, first_alternative, replacement, sub_from, substitute,
}
use credential_proxy.Substitute.Sorted.{
  sort_by_length-IsFalling, All-sort_by_length, Any-sort_by_length, Any-keys, lookup_of_Any,
  All-of_Any, All-Any, first_alternative-some, first_alternative-none,
}

-- No key of the mapping stands at the front of the text.
abbrev pub NoKey : Dict Text → Text → Type 0
NoKey m t = (w tok : Text) → lookup w m ≡ some tok → starts_with t w ≡ false

-- `w` is a key that stands at the front of the text, with its replacement, and no key there is
-- longer.
pub record IsLongest (m : Dict Text) (t w tok : Text) : Type 0 where
  pub held : lookup w m ≡ some tok
  pub front : starts_with t w ≡ true
  pub longest : (x y : Text) → lookup x m ≡ some y → starts_with t x ≡ true → length x ≤ length w

-- From left to right, a character stays where no key stands at it; else the longest key that
-- stands there is replaced, and the replacement goes on behind it.
pub data Replaced (m : Dict Text) : Text → Text → Type 0 where
  done : Replaced m [] []
  keep : (c : ℕ) {s out : Text} → NoKey m (c ∷ s) → Replaced m s out → Replaced m (c ∷ s) (c ∷ out)
  swap :
      (w tok : Text) {t out all : Text}
      → IsLongest m t w tok
      → Replaced m (drop (length w) t) out
      → all ≡ tok ++ out
      → Replaced m t all

-- The keys of a mapping are not empty.
abbrev pub NoEmptyKey : Dict Text → Type 0
NoEmptyKey m = lookup [] m ≡ none

module _ (m : Dict Text) where
  first_alternative-IsLongest :
      (t w : Text)
      → first_alternative (sort_by_length (keys m)) t ≡ some w
      → (tok : Text) × IsLongest m t w tok
  first_alternative-IsLongest t w h =
      let (a, b, c) =
        first_alternative-some (sort_by_length (keys m)) t w (sort_by_length-IsFalling (keys m))
          h in
      let (tok, held) =
        All-Any (λ x. (y : Text) × (lookup x m ≡ some y)) (sort_by_length (keys m)) w
          (All-sort_by_length (λ x. (y : Text) × (lookup x m ≡ some y)) (keys m)
            (All-of_Any _ (keys m) (λ x k. lookup_of_Any x m k)))
          a in
      (
        tok,
        record {
          held = held;
          front = b;
          longest = λ x y e q. c x (Any-sort_by_length x (keys m) (Any-keys x y m e)) q;
        },
      )

  first_alternative-NoKey :
      (t : Text) → first_alternative (sort_by_length (keys m)) t ≡ none → NoKey m t
  first_alternative-NoKey t h w tok e =
      first_alternative-none (sort_by_length (keys m)) t h w
        (Any-sort_by_length w (keys m) (Any-keys w tok m e))

  length-key : (w tok : Text) → NoEmptyKey m → lookup w m ≡ some tok → length w ≡ suc (length w - 1)
  length-key [] tok n h = absurd (ground arith)
  length-key (c ∷ w) tok n h = omega arith

  sub_from-Replaced :
      (skip : ℕ) (t : Text)
      → NoEmptyKey m
      → Replaced m (drop skip t) (sub_from (sort_by_length (keys m)) m skip t)
  unfolding sub_from replacement
  sub_from-Replaced zero [] n = done
  sub_from-Replaced (suc skip) [] n = done
  sub_from-Replaced (suc skip) (c ∷ s) n = sub_from-Replaced skip s n
  sub_from-Replaced zero (c ∷ s) n =
      elim (Option-cases (first_alternative (sort_by_length (keys m)) (c ∷ s))) [
        | inl e ↦
            rw (e, sub_from)
              (keep c (first_alternative-NoKey (c ∷ s) e) (sub_from-Replaced zero s n))
        | inr (w, e) ↦
            let (tok, long) = first_alternative-IsLongest (c ∷ s) w e in
            rw (e, sub_from)
              (swap w tok long
                (subst
                  (λ k.
                    Replaced m (drop k (c ∷ s))
                      (sub_from (sort_by_length (keys m)) m (length w - 1) s))
                  (sym (length-key w tok n long.held)) (sub_from-Replaced (length w - 1) s n))
                (ground (arith, long.held)))
      ]

nil-Replaced : (t : Text) → Replaced [] t t
unfolding lookup
nil-Replaced [] = done
nil-Replaced (c ∷ s) = keep c (λ w tok h. absurd (cc)) (nil-Replaced s)

-- For a mapping without an empty key, the text that `re.sub` makes is the one described: from
-- left to right the longest key that stands at a place is replaced, and all else stays.
pub substitute-Replaced :
    (m : Dict Text) (text : Text) → NoEmptyKey m → Replaced m text (substitute m text)
unfolding substitute
substitute-Replaced [] text n = nil-Replaced text
substitute-Replaced (e ∷ m) text n = sub_from-Replaced (e ∷ m) 0 text n
