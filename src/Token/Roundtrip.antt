-- ===== src/Token/Roundtrip.antt =====
-- Restoring what was redacted.
use credential_proxy.Prelude.{
  ℕ, ◌≤◌, ◌≡◌, ◌≢◌, refl, sym, ◌∙◌, ap, subst, true, false, some, [], ◌∷◌, ◌++◌, Text, codes,
  lookup, length, drop, starts_with, All, All-drop, drop-length-append, arith,
}
use mathlib.Core.List.{append_assoc}
use credential_proxy.Decimal.{decimal_06, read_digits, read_digits-decimal_06}
use credential_proxy.Substitute.{substitute}
use credential_proxy.Substitute.Spec.{Replaced, done, keep, swap, substitute-Replaced}
use credential_proxy.Substitute.Unique.{Replaced-unique}
use credential_proxy.Token.{Tokens, make_token}
use credential_proxy.Token.Valid.{IsValid, token_number}
use credential_proxy.Token.Redact.{redact_with, restore_with, NoEmptyKey-secrets, NoEmptyKey-tokens}

-- The text goes on behind a prefix.
starts_with-split : (t w : Text) → starts_with t w ≡ true → t ≡ w ++ drop (length w) t
unfolding starts_with
starts_with-split t [] h = refl
starts_with-split [] (c ∷ w) h = absurd (cc)
starts_with-split (x ∷ t) (c ∷ w) h = ground (arith, starts_with-split t w)

starts_with-append : (w s : Text) → starts_with (w ++ s) w ≡ true
unfolding starts_with
starts_with-append [] s = refl
starts_with-append (c ∷ w) s = ground (arith, starts_with-append w s)

-- A token's number is read off any text that begins with the token.
number_front : (n : ℕ) (s : Text) → token_number (make_token n ++ s) ≡ n
unfolding token_number make_token
number_front n s =
    ap (read_digits 0) (append_assoc (decimal_06 n) (codes "__") s)
    ∙ read_digits-decimal_06 n (codes "__" ++ s) refl

-- Two tokens at the front of one text are the same.
token_front :
    (t : Text) (n k : ℕ)
    → starts_with t (make_token n) ≡ true
    → starts_with t (make_token k) ≡ true
    → n ≡ k
token_front t n k p q =
    sym (
      ap token_number (starts_with-split t (make_token n) p)
      ∙ number_front n (drop (length (make_token n)) t))
    ∙ ap token_number (starts_with-split t (make_token k) q)
    ∙ number_front k (drop (length (make_token k)) t)

-- A token begins with an underscore.
no_token_front : (c : ℕ) (s : Text) (n : ℕ) → c ≢ 95 → starts_with (c ∷ s) (make_token n) ≡ false
unfolding make_token starts_with
no_token_front c s n h = ground arith

module _ (s : Tokens) (v : IsValid s) where
  token_of : (t w : Text) → lookup t s.token_to_pwd ≡ some w → t ≡ make_token (token_number t)
  token_of t w h = v.minted w t (v.paired.home t w h)

  -- No token at the front of a text is longer than another one there.
  no_longer :
      (t a b w y : Text)
      → lookup a s.token_to_pwd ≡ some w
      → lookup b s.token_to_pwd ≡ some y
      → starts_with t a ≡ true
      → starts_with t b ≡ true
      → length b ≤ length a
  no_longer t a b w y h k p q =
      let ea = token_of a w h in
      let eb = token_of b y k in
      let same : token_number a ≡ token_number b =
        token_front t (token_number a) (token_number b) (subst (λ x. starts_with t x ≡ true) ea p)
          (subst (λ x. starts_with t x ≡ true) eb q) in
      let e : b ≡ a = eb ∙ ap make_token (sym same) ∙ sym ea in omega (arith, ap length e)

  -- The derivation read backwards.
  Replaced-back :
      {t out : Text}
      → All (λ c. c ≢ 95) t
      → Replaced s.pwd_to_token t out
      → Replaced s.token_to_pwd out t
  Replaced-back plain done = done
  Replaced-back plain (keep c {s = rest} {out} free r) =
      keep c (λ w tok h. rw (token_of w tok h) (no_token_front c out (token_number w) plain.0))
        (Replaced-back plain.1 r)
  Replaced-back plain (swap w tok {t} {out} {all = whole} long r e) =
      swap tok w
        (record {
          held = v.paired.forth w tok long.held;
          front = rw e (starts_with-append tok out);
          longest = λ x y h q.
              no_longer whole tok x w y (v.paired.forth w tok long.held) h
                (rw e (starts_with-append tok out)) q;
        })
        (rw e (
          rw (drop-length-append tok out)
            (Replaced-back (All-drop (λ c. c ≢ 95) (length w) t plain) r)))
        (starts_with-split t w long.front)

  -- With valid tables, restoring the redacted form of a text that has no underscore gives the
  -- text back: every secret in it, and all else as it was.
  pub restore_with-redact_with :
      (text : Text)
      → All (λ c. c ≢ 95) text
      → restore_with s.token_to_pwd (redact_with s.pwd_to_token text) ≡ text
  restore_with-redact_with text plain =
      Replaced-unique s.token_to_pwd s.token_to_pwd (λ w. refl) (NoEmptyKey-tokens s v)
        (substitute-Replaced s.token_to_pwd (substitute s.pwd_to_token text)
          (NoEmptyKey-tokens s v))
        (Replaced-back plain (substitute-Replaced s.pwd_to_token text (NoEmptyKey-secrets s v)))
