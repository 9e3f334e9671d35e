-- ===== src/PiiTokens/Paired.antt =====
-- The tables of `GlobalPiiTokens` through `register` and `clear`.
use credential_proxy.Prelude.{
  ℕ, zero, suc, ◌+◌, ◌≤◌, ◌≡◌, refl, Bool, true, false, none, some, List, [], ◌∷◌, ◌++◌, Text, Dict,
  length, lookup, insert, erase, contains, truthy, ltb, text_eq_refl, arith, Bool-cases,
  Option-cases, inl, inr, length-erase_head, length-move_to_end-le,
}
use credential_proxy.Token.Pairing.{
  IsPaired, nil-IsPaired, move_to_end-IsPaired, move_both-IsPaired, erase-IsPaired, insert-IsPaired,
}
use credential_proxy.PiiTokens.{
  PiiTokens, pii_max_entries, make_pii_token, looks_like_token, used_in, is_used, next_number,
  register_locked, evict_over, enter_pair, register_in, register, clear,
}
use credential_proxy.PiiTokens.Fresh.{
  seq_of-make_pii_token, used_in-lookup, next_available_index_least,
}

-- A pair of tables that are inverse to one another and within the limit.
pub record IsPair (there back : Dict Text) : Type 0 where
  pub paired : IsPaired there back
  pub bounded : length there ≤ pii_max_entries

-- Both pairs are.
pub record IsValid (s : PiiTokens) : Type 0 where
  pub requests : IsPair s.pii_p2t s.pii_t2p
  pub responses : IsPair s.resp_p2t s.resp_t2p

lookup-head : (v tok : Text) (there : Dict Text) → lookup v ((v, tok) ∷ there) ≡ some tok
unfolding lookup
lookup-head v tok there = rw text_eq_refl

evict_over-IsPair :
    (fuel : ℕ) (there back : Dict Text) (n : ℕ)
    → IsPaired there back
    → length there ≤ pii_max_entries + fuel
    → let t = evict_over fuel (there, back, n) in IsPair t.0 t.1
unfolding evict_over
evict_over-IsPair zero there back n p h = record { paired = p; bounded = omega arith }
evict_over-IsPair (suc fuel) [] back n p h = record { paired = p; bounded = omega arith }
evict_over-IsPair (suc fuel) ((v, tok) ∷ there) back n p h =
    elim (Bool-cases (ltb pii_max_entries (length ((v, tok) ∷ there)))) [
      | inl over ↦ rw over (
          evict_over-IsPair fuel (erase v ((v, tok) ∷ there)) (erase tok back) (n + 1)
            (erase-IsPaired p v tok (lookup-head v tok there))
            (omega (arith, length-erase_head v tok there)))
      | inr fits ↦ rw fits (record { paired = p; bounded = ground arith })
    ]

enter_pair-IsPair :
    (value tok : Text) (there back : Dict Text)
    → IsPair there back
    → lookup value there ≡ none
    → lookup tok back ≡ none
    → let t = enter_pair value tok there back in IsPair t.0 t.1
unfolding enter_pair
enter_pair-IsPair value tok there back p new_value new_tok =
    evict_over-IsPair (length (insert value tok there)) (insert value tok there)
      (insert tok value back) 0 (insert-IsPaired p.paired value tok new_value new_tok) (omega arith)

-- A number that is not used makes a token that is in no table.
fresh_token :
    (n : ℕ) (rand8 : Text) (d : Dict Text)
    → is_used n (used_in d) ≡ false
    → lookup (make_pii_token n rand8) d ≡ none
fresh_token n rand8 d free = elim (Option-cases (lookup (make_pii_token n rand8) d)) [
  | inl e ↦ e
  | inr (v, e) ↦ absurd (
      ground
        (arith, used_in-lookup (make_pii_token n rand8) v n d e (seq_of-make_pii_token n rand8)))
]

register_in-IsPair :
    (value rand8 : Text) (n : ℕ) (there back : Dict Text)
    → IsPair there back
    → is_used n (used_in back) ≡ false
    → let (t, tok) = register_in value rand8 n there back in IsPair t.0 t.1
unfolding register_in
register_in-IsPair value rand8 n there back p free = elim (Option-cases (lookup value there)) [
  | inl new ↦
      rw (new, register_in)
        (enter_pair-IsPair value (make_pii_token n rand8) there back p new
          (fresh_token n rand8 back free))
  | inr (tok, held) ↦ elim (Bool-cases (contains tok back)) [
    | inl both ↦
        rw (held, register_in)
          (rw both (record {
            paired = move_both-IsPaired p.paired value tok;
            bounded = omega (arith, p.bounded, length-move_to_end-le value there);
          }))
    | inr one ↦
        rw (held, register_in)
          (rw one (record {
            paired = move_to_end-IsPaired p.paired value;
            bounded = omega (arith, p.bounded, length-move_to_end-le value there);
          }))
  ]
]

is_used-append :
    (n : ℕ) (ks js : List ℕ)
    → is_used n (ks ++ js) ≡ false
    → (is_used n ks ≡ false) × (is_used n js ≡ false)
is_used-append n [] js h = (refl, h)
is_used-append n (k ∷ ks) js h = ground (arith, is_used-append n ks js)

next_number_free :
    (s : PiiTokens)
    → (is_used (next_number s) (used_in s.pii_t2p) ≡ false)
      × (is_used (next_number s) (used_in s.resp_t2p) ≡ false)
unfolding next_number
next_number_free s =
    is_used-append (next_number s) (used_in s.pii_t2p) (used_in s.resp_t2p)
      (next_available_index_least (used_in s.pii_t2p ++ used_in s.resp_t2p) 0).0

register_locked-IsValid :
    (value rand8 : Text) (response_side : Bool) (s : PiiTokens)
    → IsValid s
    → IsValid (register_locked value rand8 response_side s).0
unfolding register_locked
register_locked-IsValid value rand8 true s v = record {
  requests = v.requests;
  responses =
      register_in-IsPair value rand8 (next_number s) s.resp_p2t s.resp_t2p v.responses
        (next_number_free s).1;
}
register_locked-IsValid value rand8 false s v = record {
  requests =
      register_in-IsPair value rand8 (next_number s) s.pii_p2t s.pii_t2p v.requests
        (next_number_free s).0;
  responses = v.responses;
}

-- Registering a value keeps both pairs of tables inverse to one another and within the limit,
-- whatever the value, the side and the random part.
pub register-IsValid :
    (value rand8 : Text) (response_side : Bool) (s : PiiTokens)
    → IsValid s
    → IsValid (register value rand8 response_side s).0
unfolding register
register-IsValid value rand8 response_side s v = elim (Bool-cases (truthy value)) [
  | inr empty ↦ rw (empty, register) v
  | inl full ↦ elim (Bool-cases (looks_like_token value)) [
    | inl bad ↦ rw (full, register) (rw (bad, register) v)
    | inr fine ↦
        rw (full, register)
          (rw (fine, register) (register_locked-IsValid value rand8 response_side s v))
  ]
]

-- Clearing the tables keeps them so.
clear-IsValid : (s : PiiTokens) → IsValid (clear s)
unfolding clear
clear-IsValid s = record {
  requests = record { paired = nil-IsPaired; bounded = omega arith };
  responses = record { paired = nil-IsPaired; bounded = omega arith };
}
