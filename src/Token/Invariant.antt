-- ===== src/Token/Invariant.antt =====
-- The token tables of `TokenMixin` through every operation.
use credential_proxy.Prelude.{
  ◌+◌, ◌≤◌, ◌<◌, ◌≡◌, true, false, none, some, [], ◌∷◌, Text, length, lookup, move_to_end,
  lookup-move_to_end, Bool-cases, Option-cases, inl, inr, ◌⊎◌, length-move_to_end-le, arith,
  starts_with, truthy, ltb, not, ◌||◌,
}
use credential_proxy.Token.{
  Tokens, token, value_error, secret_min_length, mint, register_secret, forget_secrets,
  token_prefix,
}
use credential_proxy.Token.Pairing.{nil-IsPaired, move_to_end-IsPaired}
use credential_proxy.Token.Valid.{IsValid, mint-IsValid}

-- The four ways in which `_register_secret` ends: too short, known, refused, minted.
pub register_secret_cases :
    (value : Text) (s : Tokens)
    → ((length value < secret_min_length) × (register_secret value s ≡ (s, token value)))
      ⊎ (((t : Text) × (lookup value s.pwd_to_token ≡ some t)
            × (register_secret value s ≡ (
              record s {
                pwd_to_token = move_to_end value s.pwd_to_token;
                cred_hit = s.cred_hit + 1;
              },
              token t,
            )))
          ⊎ (((lookup value s.pwd_to_token ≡ none)
                × (starts_with value token_prefix ≡ true)
                × (register_secret value s ≡ (s, value_error)))
              ⊎ ((lookup value s.pwd_to_token ≡ none)
                  × (secret_min_length ≤ length value)
                  × (starts_with value token_prefix ≡ false)
                  × (register_secret value s ≡ mint value s))))
unfolding register_secret
register_secret_cases value s =
    elim (Bool-cases (not (truthy value) || ltb (length value) secret_min_length)) [
      | inl short ↦ inl (is_short value short, rw short)
      | inr long ↦ elim (Option-cases (lookup value s.pwd_to_token)) [
        | inr (t, e) ↦ inr (inl (t, e, ground arith))
        | inl e ↦ elim (Bool-cases (starts_with value token_prefix)) [
          | inl bad ↦ inr (inr (inl (e, bad, ground arith)))
          | inr fine ↦ inr (inr (inr (e, ground arith, fine, ground arith)))
        ]
      ]
    ]
  where
    is_short :
        (v : Text)
        → not (truthy v) || ltb (length v) secret_min_length ≡ true
        → length v < secret_min_length
    is_short [] h = omega arith
    is_short (c ∷ v) h = ground arith

touched-IsValid :
    (value : Text) (s : Tokens)
    → IsValid s
    → IsValid
        (record s { pwd_to_token = move_to_end value s.pwd_to_token; cred_hit = s.cred_hit + 1 })
touched-IsValid value s v = record {
  paired = move_to_end-IsPaired v.paired value;
  minted = λ w u h. v.minted w u (ground (arith, lookup-move_to_end value w s.pwd_to_token));
  passed = λ w u h. v.passed w u (ground (arith, lookup-move_to_end value w s.pwd_to_token));
  bounded = omega (arith, length-move_to_end-le value s.pwd_to_token, v.bounded);
  long = λ w u h. v.long w u (ground (arith, lookup-move_to_end value w s.pwd_to_token));
  plain = λ w u h. v.plain w u (ground (arith, lookup-move_to_end value w s.pwd_to_token));
}

-- Registering a text keeps valid token tables valid, whatever the text and the branch.
pub register_secret-IsValid :
    (value : Text) (s : Tokens) → IsValid s → IsValid (register_secret value s).0
register_secret-IsValid value s v = elim (register_secret_cases value s) [
  | inl (short, e) ↦ rw e v
  | inr (inl (t, found, e)) ↦ rw e (touched-IsValid value s v)
  | inr (inr (inl (absent, bad, e))) ↦ rw e v
  | inr (inr (inr (absent, long, fine, e))) ↦ rw e (mint-IsValid value s absent long fine v)
]

-- Clearing the tables keeps them valid.
pub forget_secrets-IsValid : (s : Tokens) → IsValid s → IsValid (forget_secrets s)
unfolding forget_secrets lookup
forget_secrets-IsValid s v = record {
  paired = nil-IsPaired;
  minted = λ w u h. absurd (cc);
  passed = λ w u h. absurd (cc);
  bounded = omega arith;
  long = λ w u h. absurd (cc);
  plain = λ w u h. absurd (cc);
}
