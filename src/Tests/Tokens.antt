-- ===== src/Tests/Tokens.antt =====
-- Tokens and their replacement.
use credential_proxy.Prelude.{
  ℕ, ◌≡◌, ◌≢◌, ◌≤◌, refl, Bool, true, false, Option, none, some, List, [], ◌∷◌, ◌++◌, Text, Dict,
  codes, All, arith, lookup, length,
}
use credential_proxy.Tests.Data.{no_tokens}
use credential_proxy.Substitute.{substitute}
use credential_proxy.Substitute.Spec.{Replaced, substitute-Replaced}
use credential_proxy.Token.{Tokens, token, make_token, register_secret}
use credential_proxy.Token.Pairing.{nil-IsPaired}
use credential_proxy.Token.Valid.{IsValid}
use credential_proxy.Token.Invariant.{register_secret-IsValid}
use credential_proxy.Token.History.{register, here, next, Steps-same_secret}
use credential_proxy.Token.Redact.{
  Cache, BothFit, redact, restore, redact_with, restore_with, redact-substitute,
}
use credential_proxy.Token.Roundtrip.{restore_with-redact_with}

pub no_tokens-IsValid : IsValid no_tokens
unfolding lookup
no_tokens-IsValid = record {
  paired = nil-IsPaired;
  minted = λ w u h. absurd (cc);
  passed = λ w u h. absurd (cc);
  bounded = omega arith;
  long = λ w u h. absurd (cc);
  plain = λ w u h. absurd (cc);
}

abbrev pub password : Text
password = codes "hunter22"

abbrev pub one_token : Tokens
one_token = (register_secret password no_tokens).0

pub one_token-IsValid : IsValid one_token
one_token-IsValid = register_secret-IsValid password no_tokens no_tokens-IsValid

register_secret-IsValid_example : IsValid (register_secret (codes "other") one_token).0
register_secret-IsValid_example =
    register_secret-IsValid (codes "other") one_token one_token-IsValid

minted_first : (register_secret password no_tokens).1 ≡ token (make_token 1)
unfolding register_secret lookup credential_proxy.Prelude.starts_with
minted_first = refl

-- After another secret, the first token still stands for the first one.
abbrev two_tokens : Tokens
two_tokens = (register_secret (codes "other") one_token).0

held_one : lookup (make_token 1) one_token.token_to_pwd ≡ some password
unfolding register_secret make_token lookup credential_proxy.Prelude.starts_with
    credential_proxy.Prelude.insert credential_proxy.Prelude.text_eq
    credential_proxy.Decimal.decimal_06
held_one = refl

held_two : lookup (make_token 1) two_tokens.token_to_pwd ≡ some password
unfolding register_secret make_token lookup credential_proxy.Prelude.starts_with
    credential_proxy.Prelude.insert credential_proxy.Prelude.text_eq
    credential_proxy.Decimal.decimal_06
held_two = refl

Steps-same_secret_example : (password ≡ password) × IsValid two_tokens
Steps-same_secret_example =
    Steps-same_secret (make_token 1) password password
      (next here (register (codes "other") one_token)) one_token-IsValid held_one held_two

-- Two keys of which one begins the other.
abbrev nested : Dict Text
nested = (codes "ab", codes "X") ∷ (codes "abc", codes "Y") ∷ []

no_empty : lookup [] nested ≡ none
unfolding lookup credential_proxy.Prelude.text_eq
no_empty = refl

substitute-Replaced_example : Replaced nested (codes "zabcab") (substitute nested (codes "zabcab"))
substitute-Replaced_example = substitute-Replaced nested (codes "zabcab") no_empty

Replaced-nested : Replaced nested (codes "zabcab") (substitute nested (codes "zabcab"))
Replaced-nested = substitute-Replaced nested (codes "zabcab") no_empty

abbrev no_cache : Cache
no_cache = record { version = none; repl = [] }

no_cache-BothFit : BothFit one_token no_cache no_cache
no_cache-BothFit = (
  record { past = λ v h. absurd (cc); same = λ h. absurd (cc) },
  record { past = λ v h. absurd (cc); same = λ h. absurd (cc) },
)

redact-substitute_example :
    ((redact (codes "x hunter22") one_token no_cache).1
      ≡ substitute one_token.pwd_to_token (codes "x hunter22"))
    × ((restore (codes "x hunter22") one_token no_cache).1
        ≡ substitute one_token.token_to_pwd (codes "x hunter22"))
redact-substitute_example =
    redact-substitute (codes "x hunter22") one_token no_cache no_cache one_token-IsValid
      no_cache-BothFit

plain_text : All (λ c. c ≢ 95) (codes "x hunter22")
plain_text = ground arith

restore_with-redact_with_example :
    restore_with one_token.token_to_pwd (redact_with one_token.pwd_to_token (codes "x hunter22"))
    ≡ codes "x hunter22"
restore_with-redact_with_example =
    restore_with-redact_with one_token one_token-IsValid (codes "x hunter22") plain_text
