-- ===== src/Token/History.antt =====
-- What a token stands for, after one registration and over any run of operations.
use credential_proxy.Prelude.{
  ℕ, ◌+◌, ◌≤◌, ◌≡◌, refl, true, none, some, Text, text_eq_iff, length, lookup, lookup-insert,
  lookup-insert_self, lookup-move_to_end, inl, inr, ◌⊎◌, arith, starts_with, ◌≢◌,
}
use credential_proxy.Token.{
  Tokens, token, secret_min_length, make_token, evict_oldest, mint, register_secret, forget_secrets,
  token_prefix,
}
use credential_proxy.Token.Valid.{
  IsValid, token_number, token_number-make_token, advance-IsValid, evict_oldest-IsValid,
}
use credential_proxy.Token.Invariant.{
  register_secret_cases, register_secret-IsValid, forget_secrets-IsValid,
}

-- The text is on record in both tables, under the token.
abbrev pub IsEntry : Text → Text → Tokens → Type 0
IsEntry value t s = (lookup value s.pwd_to_token ≡ some t) × (lookup t s.token_to_pwd ≡ some value)

mint-IsEntry :
    (value : Text) (s : Tokens) (t : Text)
    → (mint value s).1 ≡ token t
    → IsEntry value t (mint value s).0
unfolding mint
mint-IsEntry value s t e =
    let n = s.token_seq + 1 in
    let room = evict_oldest (record s { token_seq = n }) in
    ground (
      arith,
      lookup-insert_self value (make_token n) room.pwd_to_token,
      lookup-insert_self (make_token n) value room.token_to_pwd,
    )

register_secret_known :
    (value : Text) (s : Tokens) (t : Text)
    → secret_min_length ≤ length value
    → lookup value s.pwd_to_token ≡ some t
    → (register_secret value s).1 ≡ token t
register_secret_known value s t long e = elim (register_secret_cases value s) [
  | inl (short, f) ↦ absurd (omega arith)
  | inr (inl (u, found, f)) ↦ ground (arith, f)
  | inr (inr (inl (absent, bad, f))) ↦ absurd (ground arith)
  | inr (inr (inr (absent, enough, fine, f))) ↦ absurd (ground arith)
]

-- With valid tables, a text of at least the minimum length that is given a token is on record under
-- that token, both ways, and registering it again gives the same token.
pub register_secret-IsEntry :
    (value : Text) (s : Tokens) (t : Text)
    → IsValid s
    → secret_min_length ≤ length value
    → (register_secret value s).1 ≡ token t
    → IsEntry value t (register_secret value s).0
      × ((register_secret value (register_secret value s).0).1 ≡ token t)
register_secret-IsEntry value s t v long e =
    let entry : IsEntry value t (register_secret value s).0 = elim (register_secret_cases value s) [
      | inl (short, f) ↦ absurd (omega arith)
      | inr (inl (u, found, f)) ↦ rw f (
        ground (arith, f, lookup-move_to_end value value s.pwd_to_token),
        v.paired.forth value t (ground (arith, f)),
      )
      | inr (inr (inl (absent, bad, f))) ↦ absurd (ground (arith, f))
      | inr (inr (inr (absent, enough, fine, f))) ↦ rw f (mint-IsEntry value s t (rw f at e))
    ] in
    (entry, register_secret_known value (register_secret value s).0 t long entry.0)

-- One operation on the tables.
pub data Step : Tokens → Tokens → Type 0 where
  register : (value : Text) (s : Tokens) → Step s (register_secret value s).0
  forget : (s : Tokens) → Step s (forget_secrets s)

pub data Steps (s : Tokens) : Tokens → Type 0 where
  here : Steps s s
  next : {r u : Tokens} → Steps s r → Step r u → Steps s u

-- The token is one of the past, and stands for nothing but `v`.
abbrev Stands : Text → Text → Tokens → Type 0
Stands t v s =
    (token_number t ≤ s.token_seq)
    × ((lookup t s.token_to_pwd ≡ none) ⊎ (lookup t s.token_to_pwd ≡ some v))

mint-Stands :
    (value t v : Text) (s : Tokens) → IsValid s → Stands t v s → Stands t v (mint value s).0
unfolding mint
mint-Stands value t v s valid h =
    let n = s.token_seq + 1 in
    let ready : Tokens = record s { token_seq = n } in
    let (kept, room, seq, gone, backs) = evict_oldest-IsValid ready (advance-IsValid s valid) in
    (
      omega arith,
      ground (
        arith,
        backs t,
        lookup-insert (make_token n) t value (evict_oldest ready).token_to_pwd,
        text_eq_iff t (make_token n),
        token_number-make_token n,
      ),
    )

Step-Stands : (t v : Text) {s u : Tokens} → Step s u → IsValid s → Stands t v s → Stands t v u
unfolding forget_secrets lookup
Step-Stands t v (register value s) valid h = elim (register_secret_cases value s) [
  | inl (short, e) ↦ rw e h
  | inr (inl (u, found, e)) ↦ rw e h
  | inr (inr (inl (absent, bad, e))) ↦ rw e h
  | inr (inr (inr (absent, long, fine, e))) ↦ rw e (mint-Stands value t v s valid h)
]
Step-Stands t v (forget s) valid h = (h.0, inl refl)

Step-IsValid : {s u : Tokens} → Step s u → IsValid s → IsValid u
Step-IsValid (register value s) v = register_secret-IsValid value s v
Step-IsValid (forget s) v = forget_secrets-IsValid s v

-- Valid tables stay valid through any run of registrations and clearings.
Steps-IsValid : {s u : Tokens} → Steps s u → IsValid s → IsValid u
Steps-IsValid here v = v
Steps-IsValid (next run step) v = Step-IsValid step (Steps-IsValid run v)

Steps-Stands : (t v : Text) {s u : Tokens} → Steps s u → IsValid s → Stands t v s → Stands t v u
Steps-Stands t v here valid h = h
Steps-Stands t v (next run step) valid h =
    Step-Stands t v step (Steps-IsValid run valid) (Steps-Stands t v run valid h)

-- From valid tables, over any run of registrations and clearings, evictions included, a token that
-- stood for a secret never stands for another one, and the tables stay valid.
pub Steps-same_secret :
    (t v w : Text) {s u : Tokens}
    → Steps s u
    → IsValid s
    → lookup t s.token_to_pwd ≡ some v
    → lookup t u.token_to_pwd ≡ some w
    → (v ≡ w) × IsValid u
Steps-same_secret t v w {s} {u} run valid e f =
    let stands = Steps-Stands t v run valid (valid.passed v t (valid.paired.home t v e), inr e) in
    (ground (arith, stands.1), Steps-IsValid run valid)

starts_with-make_token : (n : ℕ) → starts_with (make_token n) token_prefix ≡ true
unfolding make_token starts_with
starts_with-make_token n = refl

-- With valid tables, the token that a text of at least the minimum length is given is never the
-- text itself.
pub register_secret_hides :
    (value : Text) (s : Tokens) (t : Text)
    → IsValid s
    → secret_min_length ≤ length value
    → (register_secret value s).1 ≡ token t
    → t ≢ value
register_secret_hides value s t v long e same =
    let after = register_secret-IsValid value s v in
    let (entry, again) = register_secret-IsEntry value s t v long e in
    ground (
      arith,
      after.minted value t entry.0,
      after.plain value t entry.0,
      starts_with-make_token (token_number t),
    )
