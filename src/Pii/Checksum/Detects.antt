-- ===== src/Pii/Checksum/Detects.antt =====
-- The check digits of _pii.py find every change of one digit.
use credential_proxy.Prelude.{
  ℕ, zero, suc, ◌+◌, ◌-◌, ◌*◌, ◌%◌, ◌≤◌, ◌<◌, ◌≡◌, ◌≢◌, refl, sym, ap, ◌∙◌, subst, Bool, true,
  false, not, List, [], ◌∷◌, ◌++◌, Text, ◌==◌, if◌then◌else◌, drop, length, arith, Bool-cases, inl,
  inr, ◌⊎◌, All, ==_iff,
}
use credential_proxy.Decimal.{is_digit}
use credential_proxy.Pii.Checksum.{
  luhn_term, luhn_total, luhn_ok, weighted_sum, id_weights, id_checks, check_at, last_matches,
  id_card_ok, upper,
}
use mathlib.Core.List.{reverse, reverse-append, reverse-cons, append_assoc}

-- Whether the place after `s` is odd, for the place of its first digit.
abbrev place_after : Bool → Text → Bool
place_after odd [] = odd
place_after odd (c ∷ s) = place_after (not odd) s

luhn_total-append :
    (odd : Bool) (s t : Text)
    → luhn_total odd (s ++ t) ≡ luhn_total odd s + luhn_total (place_after odd s) t
unfolding luhn_total
luhn_total-append odd [] t = omega arith
luhn_total-append odd (c ∷ s) t = omega (arith, luhn_total-append (not odd) s t)

luhn_term-injective :
    (odd : Bool) (c d : ℕ)
    → is_digit c ≡ true
    → is_digit d ≡ true
    → c ≢ d
    → (luhn_term odd (c - 48) ≤ 9)
      × (luhn_term odd (d - 48) ≤ 9)
      × (luhn_term odd (c - 48) ≢ luhn_term odd (d - 48))
luhn_term-injective true c d hc hd n = ground arith
luhn_term-injective false c d hc hd n = ground arith

reverse_around :
    (front back : Text) (c : ℕ)
    → reverse (front ++ (c ∷ back)) ≡ reverse back ++ (c ∷ reverse front)
reverse_around front back c =
    reverse-append front (c ∷ back)
    ∙ ap (λ t. t ++ reverse front) (reverse-cons c back)
    ∙ append_assoc (reverse back) (c ∷ []) (reverse front)

luhn_total_around :
    (front back : Text) (c : ℕ)
    → luhn_total false (reverse (front ++ (c ∷ back)))
      ≡ luhn_total false (reverse back)
        + (luhn_term (place_after false (reverse back)) (c - 48)
            + luhn_total (not (place_after false (reverse back))) (reverse front))
unfolding luhn_total
luhn_total_around front back c =
    ap (luhn_total false) (reverse_around front back c)
    ∙ luhn_total-append false (reverse back) (c ∷ reverse front)

-- If a number passes `_luhn_ok`, it does not pass once one of its digits, at any place, is
-- another.
pub luhn_ok_detects :
    (front back : Text) (c d : ℕ)
    → is_digit c ≡ true
    → is_digit d ≡ true
    → c ≢ d
    → luhn_ok (front ++ (c ∷ back)) ≡ true
    → luhn_ok (front ++ (d ∷ back)) ≡ false
unfolding luhn_ok
luhn_ok_detects front back c d hc hd n h =
    let odd = place_after false (reverse back) in
    let (small_c, small_d, differ) = luhn_term-injective odd c d hc hd n in
    let one = luhn_total_around front back c in
    let two = luhn_total_around front back d in
    let zero_c : luhn_total false (reverse (front ++ (c ∷ back))) % 10 ≡ 0 =
      (==_iff (luhn_total false (reverse (front ++ (c ∷ back))) % 10) 0).0 h in
    let nonzero : luhn_total false (reverse (front ++ (d ∷ back))) % 10 ≢ 0 =
      λ z. differ (omega (arith, one, two, zero_c, z, small_c, small_d)) in
    ground (arith, nonzero)

-- The weight that the digit behind `front` has.
abbrev weight_at : List ℕ → Text → ℕ
weight_at [] s = 0
weight_at (w ∷ ws) [] = w
weight_at (w ∷ ws) (c ∷ s) = weight_at ws s

abbrev weights_after : List ℕ → Text → List ℕ
weights_after [] s = []
weights_after (w ∷ ws) [] = ws
weights_after (w ∷ ws) (c ∷ s) = weights_after ws s

weighted_sum_around :
    (ws : List ℕ) (front back : Text) (c : ℕ)
    → length front < length ws
    → weighted_sum ws (front ++ (c ∷ back))
      ≡ weighted_sum ws front
        + ((c - 48) * weight_at ws front + weighted_sum (weights_after ws front) back)
unfolding weighted_sum
weighted_sum_around [] front back c h = absurd (omega arith)
weighted_sum_around (w ∷ ws) [] back c h = omega arith
weighted_sum_around (w ∷ ws) (b ∷ front) back c h =
    let ih = weighted_sum_around ws front back c (omega arith) in omega (arith, ih)

abbrev IsWeight : ℕ → Type 0
IsWeight w = (1 ≤ w) × (w ≤ 10)

All-weight_at :
    (ws : List ℕ) (front : Text)
    → length front < length ws
    → All IsWeight ws
    → IsWeight (weight_at ws front)
All-weight_at [] front h a = absurd (omega arith)
All-weight_at (w ∷ ws) [] h a = a.0
All-weight_at (w ∷ ws) (c ∷ front) h a = All-weight_at ws front (omega arith) a.1

abbrev Differs : ℕ → Type 0
Differs w = (x y k m : ℕ) → x ≤ 9 → y ≤ 9 → x ≢ y → (k + (x * w + m)) % 11 ≢ (k + (y * w + m)) % 11

weight_cases :
    (w : ℕ)
    → IsWeight w
    → (w ≡ 1)
      ⊎ ((w ≡ 2)
          ⊎ ((w ≡ 3)
              ⊎ ((w ≡ 4) ⊎ ((w ≡ 5) ⊎ ((w ≡ 6) ⊎ ((w ≡ 7) ⊎ ((w ≡ 8) ⊎ ((w ≡ 9) ⊎ (w ≡ 10)))))))))
weight_cases w h = ground arith

-- A weight has an inverse modulo 11.
weight-Differs : (w : ℕ) → IsWeight w → Differs w
weight-Differs w h = elim (weight_cases w h) [
  | inl e ↦ subst Differs (sym e) (λ x y k m hx hy n z. omega arith)
  | inr (inl e) ↦ subst Differs (sym e) (λ x y k m hx hy n z. omega arith)
  | inr (inr (inl e)) ↦ subst Differs (sym e) (λ x y k m hx hy n z. omega arith)
  | inr (inr (inr (inl e))) ↦ subst Differs (sym e) (λ x y k m hx hy n z. omega arith)
  | inr (inr (inr (inr (inl e)))) ↦ subst Differs (sym e) (λ x y k m hx hy n z. omega arith)
  | inr (inr (inr (inr (inr (inl e))))) ↦ subst Differs (sym e) (λ x y k m hx hy n z. omega arith)
  | inr (inr (inr (inr (inr (inr (inl e)))))) ↦
      subst Differs (sym e) (λ x y k m hx hy n z. omega arith)
  | inr (inr (inr (inr (inr (inr (inr (inl e))))))) ↦
      subst Differs (sym e) (λ x y k m hx hy n z. omega arith)
  | inr (inr (inr (inr (inr (inr (inr (inr (inl e)))))))) ↦
      subst Differs (sym e) (λ x y k m hx hy n z. omega arith)
  | inr (inr (inr (inr (inr (inr (inr (inr (inr e)))))))) ↦
      subst Differs (sym e) (λ x y k m hx hy n z. omega arith)
]

-- The residue that a check character stands for.
abbrev residue_of : ℕ → ℕ
residue_of c = if c == 49 then 0 else if c == 48 then 1 else if c == 88 then 2 else 60 - c

residue_of-check_at : (n : ℕ) → n < 11 → residue_of (check_at n id_checks) ≡ n
unfolding check_at
residue_of-check_at zero h = refl
residue_of-check_at (suc zero) h = refl
residue_of-check_at (suc (suc zero)) h = refl
residue_of-check_at (suc (suc (suc zero))) h = refl
residue_of-check_at (suc (suc (suc (suc zero)))) h = refl
residue_of-check_at (suc (suc (suc (suc (suc zero))))) h = refl
residue_of-check_at (suc (suc (suc (suc (suc (suc zero)))))) h = refl
residue_of-check_at (suc (suc (suc (suc (suc (suc (suc zero))))))) h = refl
residue_of-check_at (suc (suc (suc (suc (suc (suc (suc (suc zero)))))))) h = refl
residue_of-check_at (suc (suc (suc (suc (suc (suc (suc (suc (suc zero))))))))) h = refl
residue_of-check_at (suc (suc (suc (suc (suc (suc (suc (suc (suc (suc zero)))))))))) h = refl
residue_of-check_at (suc (suc (suc (suc (suc (suc (suc (suc (suc (suc (suc n))))))))))) h =
    absurd (omega arith)

both_checks :
    (a b c : Bool)
    → (if not a then false else if not b then false else c) ≡ true
    → (a ≡ true) × (c ≡ true)
both_checks a b c h = ground arith

id_card_ok_parts :
    (value : Text)
    → id_card_ok value ≡ true
    → (length value ≡ 18)
      × (last_matches (check_at (weighted_sum id_weights value % 11) id_checks) (drop 17 value)
          ≡ true)
unfolding id_card_ok
id_card_ok_parts value h =
    let (a, c) = both_checks (length value == 18) _ _ h in ((==_iff (length value) 18).0 a, c)

drop_around :
    (n : ℕ) (front back : Text) (c d : ℕ)
    → length front < n
    → drop n (front ++ (c ∷ back)) ≡ drop n (front ++ (d ∷ back))
drop_around zero front back c d h = absurd (omega arith)
drop_around (suc n) [] back c d h = refl
drop_around (suc n) (b ∷ front) back c d h = drop_around n front back c d (omega arith)

last_matches-same : (a b : ℕ) (s : Text) → last_matches a s ≡ true → last_matches b s ≡ true → a ≡ b
unfolding last_matches
last_matches-same a b [] h k = absurd (cc)
last_matches-same a b (c ∷ s) h k = sym ((==_iff (upper c) a).0 h) ∙ (==_iff (upper c) b).0 k

-- If an identity number passes `_id_card_ok`, it does not pass once one of its first seventeen
-- digits is another: each weight has an inverse modulo 11 and the eleven check characters differ.
pub id_card_ok_detects :
    (front back : Text) (c d : ℕ)
    → length front < 17
    → is_digit c ≡ true
    → is_digit d ≡ true
    → c ≢ d
    → id_card_ok (front ++ (c ∷ back)) ≡ true
    → id_card_ok (front ++ (d ∷ back)) ≡ false
id_card_ok_detects front back c d short hc hd n h =
    elim (Bool-cases (id_card_ok (front ++ (d ∷ back)))) [
      | inr e ↦ e
      | inl e ↦
          let (_, one) = id_card_ok_parts (front ++ (c ∷ back)) h in
          let (_, two) = id_card_ok_parts (front ++ (d ∷ back)) e in
          let want : check_at (sum c % 11) id_checks ≡ check_at (sum d % 11) id_checks =
            last_matches-same _ _ (drop 17 (front ++ (c ∷ back))) one
              (rw (drop_around 17 front back c d short) two) in
          let same : sum c % 11 ≡ sum d % 11 =
            sym (residue_of-check_at (sum c % 11) (omega arith))
            ∙ ap residue_of want
            ∙ residue_of-check_at (sum d % 11) (omega arith) in
          absurd (differ (ap (λ t. t % 11) (sym (around c)) ∙ same ∙ ap (λ t. t % 11) (around d)))
    ]
  where
    sum : ℕ → ℕ
    sum e = weighted_sum id_weights (front ++ (e ∷ back))

    rest : ℕ → ℕ
    rest e =
        weighted_sum id_weights front
        + ((e - 48) * weight_at id_weights front
            + weighted_sum (weights_after id_weights front) back)

    around : (e : ℕ) → sum e ≡ rest e
    around e = weighted_sum_around id_weights front back e short

    weights : All IsWeight id_weights
    weights = ground arith

    differ : rest c % 11 ≢ rest d % 11
    differ =
        weight-Differs (weight_at id_weights front) (All-weight_at id_weights front short weights)
          (c - 48) (d - 48) _ _ (ground arith) (ground arith) (ground arith)
