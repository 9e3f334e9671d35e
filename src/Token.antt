-- ===== src/Token.antt =====
-- The credential part of `TokenMixin` (_token.py): secrets and their tokens, one table each way.
-- `OrderedDict`s are dicts in order of use; the counters stand for the calls of the metrics
-- collector (`_metrics_cred_hit`, `_metrics_cred_miss`, `_metrics_cred_lru`).
pub mod Pairing
pub mod Valid
pub mod Invariant
pub mod History
pub mod Redact
pub mod Roundtrip
use credential_proxy.Prelude.{
  ℕ, suc, ◌+◌, Bool, true, false, not, ◌||◌, Option, none, some, List, [], ◌∷◌, ◌++◌, Text, Dict,
  codes, ltb, leb, if◌then◌else◌, length, truthy, starts_with, lookup, insert, erase, move_to_end,
}
use credential_proxy.Decimal.{decimal_06}

pub record Tokens : Type 0 where
  pub pwd_to_token : Dict Text
  pub token_to_pwd : Dict Text
  pub token_seq : ℕ
  pub cred_hit : ℕ
  pub cred_miss : ℕ
  pub cred_lru : ℕ

abbrev pub token_prefix : Text
token_prefix = codes "__VG_CRED_"

abbrev pub token_suffix : Text
token_suffix = codes "__"

abbrev pub max_token_entries : ℕ
max_token_entries = 5000

abbrev pub secret_min_length : ℕ
secret_min_length = 4

unfoldable pub make_token : ℕ → Text
make_token n = token_prefix ++ (decimal_06 n ++ token_suffix)

-- The text that the call returns, or the `ValueError`.
pub data Outcome : Type 0 where
  token : Text → Outcome
  value_error : Outcome

-- The oldest entry leaves both tables when they are full.
unfoldable pub evict_oldest : Tokens → Tokens
evict_oldest s =
    if leb max_token_entries (length s.pwd_to_token)
    then elim s.pwd_to_token [
      | [] ↦ s
      | (oldest, old_token) ∷ rest ↦ record s {
        pwd_to_token = erase oldest s.pwd_to_token;
        token_to_pwd = erase old_token s.token_to_pwd;
        cred_lru = s.cred_lru + 1;
      }
    ]
    else s

-- A new secret: the next number, room in the tables, an entry in each.
unfoldable pub mint : Text → Tokens → Tokens × Outcome
unfolding evict_oldest
mint value s =
    let n = s.token_seq + 1 in
    let t = make_token n in
    let room = evict_oldest (record s { token_seq = n }) in
    (
      record room {
        pwd_to_token = insert value t room.pwd_to_token;
        token_to_pwd = insert t value room.token_to_pwd;
        cred_miss = room.cred_miss + 1;
      },
      token t,
    )

-- `_register_secret`. What `TOKEN_STR_RE` matches whole starts with the prefix, so that one test
-- stands for both.
unfoldable pub register_secret : Text → Tokens → Tokens × Outcome
unfolding mint
register_secret value s =
    if not (truthy value) || ltb (length value) secret_min_length
    then (s, token value)
    else elim (lookup value s.pwd_to_token) [
      | some t ↦ (
        record s { pwd_to_token = move_to_end value s.pwd_to_token; cred_hit = s.cred_hit + 1 },
        token t,
      )
      | none ↦ if starts_with value token_prefix then (s, value_error) else mint value s
    ]

-- `_maybe_register`
unfoldable pub maybe_register : Text → Bool → Tokens → Tokens × Outcome
unfolding register_secret
maybe_register value use_token s = if use_token then register_secret value s else (s, token value)

-- The command `forget secrets` of _matrix.py: both tables are cleared, the sequence goes on.
unfoldable pub forget_secrets : Tokens → Tokens
forget_secrets s = record s { pwd_to_token = []; token_to_pwd = [] }
