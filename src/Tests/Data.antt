-- ===== src/Tests/Data.antt =====
-- A caller, a request and the states that the examples start from.
use credential_proxy.Prelude.{true, false, none, some, [], ◌∷◌, Text, codes}
use credential_proxy.Reactions.{reaction_approve}
use credential_proxy.Registry.Store.{Caller, Document}
use credential_proxy.Registry.{Registry, register_caller, activate_caller}
use credential_proxy.Registry.Reach.{no_registry}
use credential_proxy.Token.{Tokens}
use credential_proxy.Proxy.{Proxy, Request}
use credential_proxy.Matrix.{Reaction}
use credential_proxy.Credential.{Config, AuthData, CredentialQuery}

abbrev pub no_tokens : Tokens
no_tokens = record {
  pwd_to_token = [];
  token_to_pwd = [];
  token_seq = 0;
  cred_hit = 0;
  cred_miss = 0;
  cred_lru = 0;
}

abbrev pub backup : Caller
backup = record {
  reg_id = codes "r1";
  name = codes "backup";
  script_path = codes "/b";
  script_hash = codes "h1";
  description = [];
  script_hash_old = [];
  hash_change_at = 0;
  hash_change_notified = false;
  entries = (codes "mail", []) ∷ [];
  allow_mode = codes "manual";
  can_auto_unlock = false;
  created_at = codes "now";
  enabled = false;
}

abbrev pub enabled_backup : Caller
enabled_backup = record backup { enabled = true }

abbrev pub digest : Document → Text
digest d = codes "digest"

abbrev pub registered : Registry
registered = activate_caller digest (codes "now") (codes "r1") (register_caller backup no_registry)

-- The registry as it is written out.
abbrev pub one_caller : Registry
one_caller = record no_registry {
  callers = (codes "r1", enabled_backup) ∷ [];
  by_path = (codes "/b", codes "r1") ∷ [];
  by_name = (codes "backup", codes "r1") ∷ [];
}

abbrev pub idle : Proxy
idle = record {
  room_id = codes "room";
  user_id = codes "bot";
  start_ts = 10;
  approval_whitelist = codes "alice" ∷ [];
  master_password = some (codes "secret");
  kp_cached = false;
  unlock_event = none;
  unlock_msg_id = none;
  unlock_in_progress = false;
  unlock_generation = 0;
  auto_unlock_event = none;
  set_events = [];
  next_event = 1;
  pending_requests = [];
  approval_msgs = [];
  audit_approval_msgs = [];
  audit_approval_pending = [];
  last_credential_request = 0;
  registry = one_caller;
  tokens = no_tokens;
}

abbrev pub request : Request
request = record {
  entry = codes "mail";
  field = none;
  use_token = true;
  approved = none;
  event = 0;
}

-- A request waits for a reaction to the message `m1`.
abbrev pub asking : Proxy
asking = record idle {
  pending_requests = (codes "q1", request) ∷ [];
  approval_msgs = (codes "m1", codes "q1") ∷ [];
}

abbrev pub approval : Reaction
approval = record {
  room = codes "room";
  server_timestamp = 20;
  sender = codes "alice";
  event_id = codes "m1";
  key = reaction_approve;
}

abbrev pub config : Config
config = record { get_binary_hash = codes "g"; get_binary_secret = codes "s" }

abbrev pub factors : AuthData
factors = record {
  get_binary_hash = codes "g";
  get_binary_secret = codes "s";
  caller_hash = codes "h1";
  caller_path = codes "/b";
}

abbrev pub mail_query : CredentialQuery
mail_query = record {
  entry = codes "mail";
  field = codes "password";
  use_token = true;
  auth = factors;
}
