-- ===== src/Credential/Reply.antt =====
-- The answers of the handlers of _credential.py. A text of an error stands for its message.
use credential_proxy.Prelude.{ℕ, Text, Dict}

pub data Error : Type 0 where
  bad_json : Error
  missing_entry : Error
  missing_name : Error
  missing_script : Error
  missing_change : Error
  bad_reaction : Error
  bad_binary_hash : Error
  bad_binary_secret : Error
  missing_caller_hash : Error
  raw_refused : Error
  not_permitted : Text → Text → Error
  too_frequent : Error
  auto_unlock_failed : Error
  proxy_locked : Error
  unlock_not_sent : Error
  unlock_timeout : Error
  unlock_failed : Error
  approval_not_sent : Error
  approval_timeout : Error
  approval_refused : Error
  revoke_timeout : Error
  revoke_refused : Error
  registration_refused : Error
  no_admin_token : Error
  no_database : Error
  no_pykeepass : Error
  no_entry : Text → Error
  no_field : Text → Error
  no_registration : Text → Error
  name_taken : Text → Error
  keepass_failed : Error
  registry_not_written : Error

-- The whole entry, as /credential returns it.
pub record EntryReply : Type 0 where
  pub title : Text
  pub username : Text
  pub password : Text
  pub url : Text
  pub custom_properties : Dict Text

pub data Response : Type 0 where
  fail : ℕ → Error → Response
  value : Text → Response
  full_entry : EntryReply → Response
  revoked : Text → Response
  activated : Text → Text → Response
  resolved : Text → Response
