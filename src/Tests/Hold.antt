-- ===== src/Tests/Hold.antt =====
-- The cut of a streamed text in _llm.py, with a token that stands across two chunks, and with a
-- number at its end.
use credential_proxy.Prelude.{
  ℕ, ◌≡◌, refl, Bool, true, false, Option, none, some, List, [], ◌∷◌, ◌++◌, Text, codes, all,
  if◌then◌else◌, if_both, starts_with, length, leb, subst,
}
use credential_proxy.Decimal.{is_digit}
use credential_proxy.Hold.{
  Forms, from_last, split_safe_hold, custom_tail_hold_run, pii_tail_hold_run, strip_token_forms,
}
use credential_proxy.Hold.Splits.{Splits}
use credential_proxy.Hold.Tail.{
  AtDollar, at_end, at_newline, nowhere, newline, ends_newline, IsAnchored,
}
use credential_proxy.Hold.Whole.{split_safe_hold-Splits}
use credential_proxy.Hold.Token.{split_safe_hold_keeps_token}

abbrev nothing_found : Text → Option Text
nothing_found win = none

-- The digits at the end of a text.
abbrev end_digits : Text → Option Text
end_digits [] = none
end_digits (c ∷ s) = let rest = end_digits s in if all is_digit (c ∷ s) then some (c ∷ s) else rest

abbrev never : Text → Bool
never run = false

-- What the expressions find in a text with no full token at its end.
abbrev forms : Forms
forms = record {
  full_token = none;
  full_pii_token = none;
  email_tail = nothing_found;
  ipv4_tail = nothing_found;
  ipv6_tail = nothing_found;
  apikey_tail = nothing_found;
  digits_tail = end_digits;
  complete_email = never;
  complete_ipv4 = never;
  is_ipv6_address = never;
  complete_apikey = never;
  complete_phone = λ run. leb 11 (length run);
  complete_id = never;
  complete_bank = never;
  sub_token = λ t. t;
  sub_partial_token = λ t. t;
  sub_pii_partial_token = λ t. t;
}

abbrev tokens : List Text
tokens = codes "__VG_CRED_000001__" ∷ []

abbrev unknown_token : Forms
unknown_token = record forms { full_token = some (codes "pw ", codes "__VG_CRED_000009__") }

-- The search for digits in `Step 10` with a newline behind it: the run is found in front of it.
abbrev step_forms : Forms
step_forms = record forms { digits_tail = λ win. some (codes "10") }

-- The token that is cut is held; a single underscore is not; digits are held unless they make a
-- phone number; an unknown token is held. Where a newline follows the run, one character goes out
-- that belongs to the run, and the newline is lost.
cuts :
    (split_safe_hold forms (codes "pw __VG_C") tokens none [] false ≡ (codes "pw ", codes "__VG_C"))
    × (split_safe_hold forms (codes "pw _") tokens none [] false ≡ (codes "pw _", []))
    × (custom_tail_hold_run (codes "id AB-1") (codes "AB-" ∷ []) ≡ codes "AB-1")
    × (custom_tail_hold_run (codes "id AB") (codes "AB-" ∷ []) ≡ codes "AB")
    × (split_safe_hold forms (codes "call 138") tokens none [] true ≡ (codes "call ", codes "138"))
    × (pii_tail_hold_run forms (codes "call 13800138000") ≡ [])
    × (split_safe_hold unknown_token (codes "pw __VG_CRED_000009__") tokens none [] true
        ≡ (codes "pw ", codes "__VG_CRED_000009__"))
    × (split_safe_hold step_forms (codes "Step 10" ++ newline) tokens none [] true
        ≡ (codes "Step 1", codes "10"))
unfolding split_safe_hold custom_tail_hold_run pii_tail_hold_run strip_token_forms
cuts = (refl, refl, refl, refl, refl, refl, refl, refl)

AtDollar-cons : (run : Text) (c : ℕ) (s : Text) → AtDollar run s → AtDollar run (c ∷ s)
AtDollar-cons run c _ (at_end front) = at_end (c ∷ front)
AtDollar-cons run c _ (at_newline front) = at_newline (c ∷ front)

data IsFound (win : Text) : Option Text → Type 0 where
  missing : IsFound win none
  found : (run : Text) → AtDollar run win → IsFound win (some run)

IsFound-cons : (c : ℕ) (s : Text) (o : Option Text) → IsFound s o → IsFound (c ∷ s) o
IsFound-cons c s _ missing = missing
IsFound-cons c s _ (found run h) = found run (AtDollar-cons run c s h)

end_digits-IsFound : (win : Text) → IsFound win (end_digits win)
end_digits-IsFound [] = missing
end_digits-IsFound (c ∷ s) =
    if_both (IsFound (c ∷ s)) (all is_digit (c ∷ s)) (found (c ∷ s) (at_end []))
      (IsFound-cons c s (end_digits s) (end_digits-IsFound s))

found_same : (win run : Text) (o : Option Text) → IsFound win o → o ≡ some run → AtDollar run win
found_same win run _ missing e = absurd (cc)
found_same win run _ (found r h) e = subst (λ t. AtDollar t win) (cc) h

none_found : IsAnchored nothing_found
none_found win run e = absurd (cc)

split_safe_hold-Splits_example :
    Splits
      (strip_token_forms forms)
      (codes "call 138")
      (split_safe_hold forms (codes "call 138") tokens none (codes "AB-" ∷ []) true)
unfolding ends_newline strip_token_forms
split_safe_hold-Splits_example =
    split_safe_hold-Splits forms (codes "call 138") tokens none (codes "AB-" ∷ []) true refl
      (nowhere (codes "call 138")) (nowhere (codes "call 138"))
      (
        none_found,
        none_found,
        none_found,
        none_found,
        λ win run e. found_same win run (end_digits win) (end_digits-IsFound win) e,
      )
      refl

begins_token : from_last (codes "__") (codes "__VG_C") ≡ some (codes "__VG_C")
unfolding from_last
begins_token = refl

split_safe_hold_keeps_token_example :
    split_safe_hold forms (codes "pw " ++ codes "__VG_C") tokens none [] false
    ≡ (codes "pw ", codes "__VG_C")
unfolding starts_with strip_token_forms
split_safe_hold_keeps_token_example =
    split_safe_hold_keeps_token forms (codes "pw ") (codes "__VG_C") tokens none [] false refl refl
      begins_token refl
