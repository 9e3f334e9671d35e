-- ===== src/Token/Valid.antt =====
-- When the token tables of `TokenMixin` are valid, and the minting of a token.
use credential_proxy.Prelude.{
  ℕ, ◌+◌, ◌≤◌, ◌<◌, ◌≡◌, refl, ap, false, none, some, [], ◌∷◌, drop, Text, Dict, text_eq_iff,
  text_eq_refl, codes, leb, length, lookup, insert, erase, lookup-insert, lookup-erase,
  length-insert-le, length-erase_head, length-erase-le, Bool-cases, Option-cases, inl, inr, ◌⊎◌,
  arith, starts_with,
}
use credential_proxy.Decimal.{read_digits, read_digits-decimal_06}
use credential_proxy.Token.{
  Tokens, max_token_entries, secret_min_length, make_token, evict_oldest, mint, token_prefix,
}
use credential_proxy.Token.Pairing.{IsPaired, erase-IsPaired, insert-IsPaired}

-- The number that a token carries.
unfoldable pub token_number : Text → ℕ
token_number t = read_digits 0 (drop 10 t)

pub token_number-make_token : (n : ℕ) → token_number (make_token n) ≡ n
unfolding token_number make_token
token_number-make_token n = read_digits-decimal_06 n (codes "__") refl

-- The tables are inverse to one another and within the limit, and each token in them was minted
-- from a number that the sequence has passed.
pub record IsValid (s : Tokens) : Type 0 where
  pub paired : IsPaired s.pwd_to_token s.token_to_pwd
  pub minted : (v t : Text) → lookup v s.pwd_to_token ≡ some t → t ≡ make_token (token_number t)
  pub passed : (v t : Text) → lookup v s.pwd_to_token ≡ some t → token_number t ≤ s.token_seq
  pub bounded : length s.pwd_to_token ≤ max_token_entries
  pub long : (v t : Text) → lookup v s.pwd_to_token ≡ some t → secret_min_length ≤ length v
  pub plain : (v t : Text) → lookup v s.pwd_to_token ≡ some t → starts_with v token_prefix ≡ false

-- The first key of a dict, if it has one.
pub oldest_cases :
    (d : Dict Text) → (d ≡ []) ⊎ ((k t : Text) × (rest : Dict Text) × (d ≡ (k, t) ∷ rest))
oldest_cases [] = inl refl
oldest_cases ((k, t) ∷ rest) = inr (k, t, rest, refl)

abbrev pub without_entry : Text → Text → Tokens → Tokens
without_entry k t s = record s {
  pwd_to_token = erase k s.pwd_to_token;
  token_to_pwd = erase t s.token_to_pwd;
  cred_lru = s.cred_lru + 1;
}

pub lookup-head : (k t : Text) (d rest : Dict Text) → d ≡ (k, t) ∷ rest → lookup k d ≡ some t
unfolding lookup
lookup-head k t d rest e = rw (e, text_eq_refl)

pub evict_oldest_cases :
    (s : Tokens)
    → ((evict_oldest s ≡ s) × (length s.pwd_to_token < max_token_entries))
      ⊎ ((k t : Text) × (lookup k s.pwd_to_token ≡ some t)
          × (evict_oldest s ≡ without_entry k t s)
          × (length (erase k s.pwd_to_token) < length s.pwd_to_token))
unfolding evict_oldest
evict_oldest_cases s = elim (Bool-cases (leb max_token_entries (length s.pwd_to_token))) [
  | inr room ↦ inl (rw room, ground arith)
  | inl full ↦ elim (oldest_cases s.pwd_to_token) [
    | inl e ↦ absurd (ground (arith, ap length e))
    | inr (k, t, rest, e) ↦ inr (
      k,
      t,
      lookup-head k t s.pwd_to_token rest e,
      ground arith,
      rw e (omega (arith, length-erase_head k t rest)),
    )
  ]
]

pub without_entry-IsValid :
    (k t : Text) (s : Tokens)
    → lookup k s.pwd_to_token ≡ some t
    → IsValid s
    → IsValid (without_entry k t s)
without_entry-IsValid k t s e v = record {
  paired = erase-IsPaired v.paired k t e;
  minted = λ w u h. v.minted w u (ground (arith, lookup-erase k w s.pwd_to_token));
  passed = λ w u h. v.passed w u (ground (arith, lookup-erase k w s.pwd_to_token));
  bounded = omega (arith, length-erase-le k s.pwd_to_token, v.bounded);
  long = λ w u h. v.long w u (ground (arith, lookup-erase k w s.pwd_to_token));
  plain = λ w u h. v.plain w u (ground (arith, lookup-erase k w s.pwd_to_token));
}

-- After room was made, the tables are valid and there is place for one more.
pub evict_oldest-IsValid :
    (s : Tokens)
    → IsValid s
    → IsValid (evict_oldest s)
      × (length (evict_oldest s).pwd_to_token < max_token_entries)
      × ((evict_oldest s).token_seq ≡ s.token_seq)
      × ((w : Text)
          → lookup w s.pwd_to_token ≡ none
          → lookup w (evict_oldest s).pwd_to_token ≡ none)
      × ((t : Text)
          → (lookup t (evict_oldest s).token_to_pwd ≡ none)
            ⊎ (lookup t (evict_oldest s).token_to_pwd ≡ lookup t s.token_to_pwd))
evict_oldest-IsValid s v = elim (evict_oldest_cases s) [
  | inl (same, room) ↦ rw same (v, room, refl, λ w h. h, λ u. inr refl)
  | inr (k, t, e, out, less) ↦ rw out (
    without_entry-IsValid k t s e v,
    omega (arith, v.bounded),
    refl,
    λ w h. ground (arith, lookup-erase k w s.pwd_to_token),
    λ u. ground (arith, lookup-erase t u s.token_to_pwd),
  )
]

-- A number that was not passed yet makes a token that is in neither table.
pub fresh_token :
    (s : Tokens) (n : ℕ) → IsValid s → s.token_seq < n → lookup (make_token n) s.token_to_pwd ≡ none
fresh_token s n v h = elim (Option-cases (lookup (make_token n) s.token_to_pwd)) [
  | inl e ↦ e
  | inr (w, e) ↦ absurd (
      omega (
        arith,
        v.passed w (make_token n) (v.paired.home (make_token n) w e),
        token_number-make_token n,
      ))
]

abbrev pub with_entry : Text → ℕ → Tokens → Tokens
with_entry value n room = record room {
  pwd_to_token = insert value (make_token n) room.pwd_to_token;
  token_to_pwd = insert (make_token n) value room.token_to_pwd;
  cred_miss = room.cred_miss + 1;
}

pub with_entry-IsValid :
    (value : Text) (n : ℕ) (s : Tokens)
    → IsValid s
    → lookup value s.pwd_to_token ≡ none
    → lookup (make_token n) s.token_to_pwd ≡ none
    → n ≤ s.token_seq
    → length s.pwd_to_token < max_token_entries
    → secret_min_length ≤ length value
    → starts_with value token_prefix ≡ false
    → IsValid (with_entry value n s)
with_entry-IsValid value n s v absent new passed room enough fine = record {
  paired = insert-IsPaired v.paired value (make_token n) absent new;
  minted = λ w u h. ground (
    arith,
    lookup-insert value w (make_token n) s.pwd_to_token,
    v.minted w u,
    token_number-make_token n,
  );
  passed = λ w u h. ground (
    arith,
    lookup-insert value w (make_token n) s.pwd_to_token,
    v.passed w u,
    token_number-make_token n,
  );
  bounded = omega (arith, length-insert-le value (make_token n) s.pwd_to_token);
  long = λ w u h.
      ground (
        arith,
        lookup-insert value w (make_token n) s.pwd_to_token,
        v.long w u,
        text_eq_iff w value,
      );
  plain = λ w u h. ground (
    arith,
    lookup-insert value w (make_token n) s.pwd_to_token,
    v.plain w u,
    text_eq_iff w value,
  );
}

pub advance-IsValid : (s : Tokens) → IsValid s → IsValid (record s { token_seq = s.token_seq + 1 })
advance-IsValid s v = record {
  paired = v.paired;
  minted = v.minted;
  passed = λ w u h. omega (arith, v.passed w u h);
  bounded = v.bounded;
  long = v.long;
  plain = v.plain;
}

pub mint-IsValid :
    (value : Text) (s : Tokens)
    → lookup value s.pwd_to_token ≡ none
    → secret_min_length ≤ length value
    → starts_with value token_prefix ≡ false
    → IsValid s
    → IsValid (mint value s).0
unfolding mint
mint-IsValid value s absent enough fine v =
    let n = s.token_seq + 1 in
    let ready : Tokens = record s { token_seq = n } in
    let (kept, room, seq, gone, backs) = evict_oldest-IsValid ready (advance-IsValid s v) in
    with_entry-IsValid value n (evict_oldest ready) kept (gone value absent)
      (ground (arith, fresh_token s n v, backs (make_token n))) (omega arith) room enough fine
