-- ===== src/Hold/Token.antt =====
-- `_split_safe_hold` of _llm.py holds the beginning of a token that it may have to restore.
use credential_proxy.Prelude.{
  ℕ, ◌≡◌, refl, ap, ◌∙◌, Bool, true, Option, none, some, List, [], ◌∷◌, ◌++◌, Text, any,
  starts_with, truthy, codes, arith,
}
use credential_proxy.Hold.{
  from_last, Forms, strip_token_forms, split_token, split_pii, split_safe_hold,
}
use credential_proxy.Hold.Splits.{before_run_front}

from_last_found :
    (part : Text) (c : ℕ) (s r : Text) → from_last part s ≡ some r → from_last part (c ∷ s) ≡ some r
unfolding from_last
from_last_found part c s r h = rw h refl

from_last-append :
    (part front a : Text) → from_last part a ≡ some a → from_last part (front ++ a) ≡ some a
from_last-append part [] a h = h
from_last-append part (c ∷ front) a h =
    from_last_found part c (front ++ a) a (from_last-append part front a h)

any-append : (q : Text → Bool) (xs ys : List Text) → any q xs ≡ true → any q (xs ++ ys) ≡ true
any-append q [] ys h = absurd (cc)
any-append q (x ∷ xs) ys h = ground (arith, any-append q xs ys)

module _ (f : Forms) (front a : Text) (hints : List Text) (b : Bool) where
  split_token_held :
      (tokens : List Text)
      → from_last (codes "__") a ≡ some a
      → any (λ t. starts_with t a) tokens ≡ true
      → split_token f (front ++ a) tokens hints b ≡ (strip_token_forms f front, a)
  unfolding split_token
  split_token_held tokens h k =
      rw (from_last-append (codes "__") front a h, k, split_token)
        (ap (λ t. (strip_token_forms f t, a)) (before_run_front front a))

  split_pii_held :
      (active : List Text) (pii : Option (List Text))
      → f.full_pii_token ≡ none
      → from_last (codes "__") a ≡ some a
      → any (λ t. starts_with t a) active ≡ true
      → split_pii f (front ++ a) active pii hints b ≡ (strip_token_forms f front, a)
  unfolding split_pii
  split_pii_held active none n h k = split_token_held active h k
  split_pii_held active (some pii) n h k =
      rw n (split_token_held (active ++ pii) h (any-append (λ t. starts_with t a) active pii k))

  split_nonempty :
      (c : ℕ) (s : Text) (active : List Text) (pii : Option (List Text))
      → f.full_token ≡ none
      → split_safe_hold f (c ∷ s) active pii hints b ≡ split_pii f (c ∷ s) active pii hints b
  unfolding split_safe_hold
  split_nonempty c s active pii n = rw n refl

  split_same :
      (s : Text) (active : List Text) (pii : Option (List Text))
      → truthy s ≡ true
      → f.full_token ≡ none
      → split_safe_hold f s active pii hints b ≡ split_pii f s active pii hints b
  split_same [] active pii t n = absurd (cc)
  split_same (c ∷ s) active pii t n = split_nonempty c s active pii n

truthy-append : (front a : Text) → truthy a ≡ true → truthy (front ++ a) ≡ true
truthy-append [] a h = h
truthy-append (c ∷ front) a h = refl

from_last-truthy : (a : Text) → from_last (codes "__") a ≡ some a → truthy a ≡ true
unfolding from_last starts_with
from_last-truthy [] h = absurd (cc)
from_last-truthy (c ∷ a) h = refl

-- Where a chunk ends with the beginning of an active token from its two underscores on, and neither a
-- full token nor another `__` behind them is found, `_split_safe_hold` holds this beginning and lets
-- out what is in front of it, so that the token is whole with the next chunk.
pub split_safe_hold_keeps_token :
    (f : Forms) (front a : Text) (active : List Text) (pii : Option (List Text)) (hints : List Text)
    (b : Bool)
    → f.full_token ≡ none
    → f.full_pii_token ≡ none
    → from_last (codes "__") a ≡ some a
    → any (λ t. starts_with t a) active ≡ true
    → split_safe_hold f (front ++ a) active pii hints b ≡ (strip_token_forms f front, a)
split_safe_hold_keeps_token f front a active pii hints b n m h k =
    split_same f front a hints b (front ++ a) active pii
      (truthy-append front a (from_last-truthy a h)) n
    ∙ split_pii_held f front a hints b active pii m h k
