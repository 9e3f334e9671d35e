-- ===== src/Tests/Handlers.antt =====
-- The checks of a request, the answers of the database, and the handlers that change the registry.
use credential_proxy.Prelude.{
  ℕ, ◌≡◌, ◌≢◌, refl, Bool, true, false, Option, none, some, List, [], ◌∷◌, Text, Dict, codes, strip,
  arith, Unique, lookup, ◌↔◌,
}
use credential_proxy.Tests.Data.{
  digest, registered, idle, approval, config, factors, mail_query, no_tokens,
}
use credential_proxy.Tests.Tokens.{no_tokens-IsValid}
use credential_proxy.Registry.{lookup_by_name}
use credential_proxy.Proxy.{Proxy}
use credential_proxy.Token.{make_token}
use credential_proxy.Matrix.{on_reaction}
use credential_proxy.Credential.Reply.{value, revoked}
use credential_proxy.Credential.{
  Config, AuthData, CredentialQuery, require_auth, check_request, enqueue_revoke, decision,
}
use credential_proxy.Credential.Auth.{MayEnter, check_request_iff}
use credential_proxy.Credential.Query.{Custom, KeepassEntry, Library, answer}
use credential_proxy.Credential.Query.Hidden.{EntryHides, answer-password-Hides, answer-EntryHides}
use credential_proxy.Credential.Query.Props.{Hides}
use credential_proxy.Credential.Registration.{
  Surroundings, RevokeBody, RegisterBody, revoke_named, handle_revoke, handle_revoke_emergency,
  handle_register_caller,
}
use credential_proxy.Credential.Registration.Emergency.{MayRevoke, handle_revoke_emergency_iff}
use credential_proxy.Credential.Registration.Outcome.{Ends, handle_register_caller-Ends}

check_request_iff_example : (check_request config mail_query ≡ none) ↔ MayEnter config mail_query
check_request_iff_example = check_request_iff config mail_query

abbrev library : Library
library = record { installed = true; has_protected = true; has_custom = true }

abbrev pin : Custom
pin = record { text = some (codes "123456"); protected = true }

abbrev bank : KeepassEntry
bank = record {
  title = some (codes "bank");
  username = some (codes "me");
  password = some (codes "hunter22");
  url = none;
  custom = (codes "pin", pin) ∷ [];
}

bank_password : (answer library bank (codes "password") true no_tokens).1 ≡ value (make_token 1)
unfolding answer credential_proxy.Token.maybe_register lookup credential_proxy.Prelude.starts_with
bank_password = refl

answer-password-Hides_example : Hides (codes "hunter22") (make_token 1)
answer-password-Hides_example =
    answer-password-Hides library bank no_tokens no_tokens-IsValid (make_token 1) bank_password

pin_held : lookup (codes "pin") bank.custom ≡ some pin
unfolding lookup credential_proxy.Prelude.text_eq
pin_held = refl

pin_answer : (answer library bank (codes "pin") true no_tokens).1 ≡ value (make_token 1)
unfolding answer lookup credential_proxy.Token.maybe_register credential_proxy.Prelude.starts_with
pin_answer = refl

bank-Unique : Unique bank.custom
unfolding lookup
bank-Unique = (refl, tt)

answer-EntryHides_example : EntryHides bank (answer library bank [] true no_tokens).1
answer-EntryHides_example = answer-EntryHides library bank no_tokens no_tokens-IsValid bank-Unique

-- Alice approves what is asked in `m1`.
abbrev calm : Surroundings
calm = record {
  digest = digest;
  updated_at = codes "later";
  msg_id = some (codes "m1");
  in_time = true;
  first_written = true;
  second_written = true;
  asking = λ p. p;
  waiting = λ p. (on_reaction approval p).0;
}

abbrev serving : Proxy
serving = record idle { registry = registered }

abbrev newcomer : RegisterBody
newcomer = record {
  name = codes "sync";
  auth = factors;
  script_path = codes "/s";
  script_hash = codes "h5";
  description = [];
  entries = [];
  allow_mode = codes "manual";
  can_auto_unlock = false;
}

handle_register_caller-Ends_example :
    Ends
      (codes "r2")
      (codes "sync")
      serving
      (handle_register_caller calm config (codes "r2") (codes "now") newcomer serving)
unfolding strip
handle_register_caller-Ends_example =
    handle_register_caller-Ends calm config (codes "r2") (codes "now") newcomer serving

-- Without an administrator's token, from an address outside.
abbrev revocation : RevokeBody
revocation = record {
  name = codes "backup";
  auth = factors;
  admin_token = [];
  peer = codes "8.8.8.8";
}

handle_revoke_emergency_iff_example :
    ((handle_revoke_emergency calm config [] revocation serving).1 ≡ revoked (codes "backup"))
    ↔ MayRevoke calm config [] revocation serving
unfolding strip
handle_revoke_emergency_iff_example = handle_revoke_emergency_iff calm config [] revocation serving

revoked_by_alice :
    (handle_revoke calm config (codes "q1") revocation serving).1 ≡ revoked (codes "backup")
unfolding handle_revoke require_auth credential_proxy.Prelude.text_eq strip lookup_by_name lookup
    credential_proxy.Registry.activate_caller credential_proxy.Registry.register_caller
    credential_proxy.Prelude.insert on_reaction enqueue_revoke
    credential_proxy.Credential.cleanup_request
revoked_by_alice = refl

backup_revoked : (revoke_named calm (codes "backup") serving).1 ≡ revoked (codes "backup")
unfolding revoke_named lookup_by_name lookup credential_proxy.Registry.activate_caller
    credential_proxy.Registry.register_caller credential_proxy.Prelude.insert
    credential_proxy.Prelude.text_eq
backup_revoked = refl
