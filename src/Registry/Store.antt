-- ===== src/Registry/Store.antt =====
-- The registrations of _registry.py and the file that holds them: `RegisteredCaller`,
-- `_save_caller_registry`, `_load_caller_registry`. The file is taken as parsed JSON, and the
-- digest of `_compute_registry_integrity` (SHA-256 over the sorted JSON) is a parameter.
use credential_proxy.Prelude.{
  ℕ, Bool, true, false, Option, none, some, List, [], ◌∷◌, map, Text, Dict, codes, truthy, text_eq,
  insert, if◌then◌else◌,
}

-- `hash_change_at` is in milliseconds, and 0 stands for "never".
pub record Caller : Type 0 where
  pub reg_id : Text
  pub name : Text
  pub script_path : Text
  pub script_hash : Text
  pub description : Text
  pub script_hash_old : Text
  pub hash_change_at : ℕ
  pub hash_change_notified : Bool
  pub entries : Dict (List Text)
  pub allow_mode : Text
  pub can_auto_unlock : Bool
  pub created_at : Text
  pub enabled : Bool

-- One object of the file's list `callers`; a key may be missing. `description` is not among them.
pub record Stored : Type 0 where
  pub reg_id : Option Text
  pub name : Option Text
  pub script_path : Option Text
  pub script_hash : Option Text
  pub script_hash_old : Option Text
  pub hash_change_at : Option ℕ
  pub hash_change_notified : Option Bool
  pub allowed_entries : Option (Dict (List Text))
  pub allow_mode : Option Text
  pub can_auto_unlock : Option Bool
  pub created_at : Option Text
  pub enabled : Option Bool

-- The parsed file. `callers` is empty where the key is missing.
pub record Document : Type 0 where
  pub version : ℕ
  pub updated_at : Text
  pub callers : List Stored
  pub integrity : Option Text

-- `c.get(key, default)`
abbrev pub or_default {ℓ} : {A : Type ℓ} → Option A → A → A
or_default none d = d
or_default (some a) d = a

-- The object that `_save_caller_registry` writes for a registration.
unfoldable pub stored_of : Caller → Stored
stored_of c = record {
  reg_id = some c.reg_id;
  name = some c.name;
  script_path = some c.script_path;
  script_hash = some c.script_hash;
  script_hash_old = some c.script_hash_old;
  hash_change_at = some c.hash_change_at;
  hash_change_notified = some c.hash_change_notified;
  allowed_entries = some c.entries;
  allow_mode = some c.allow_mode;
  can_auto_unlock = some c.can_auto_unlock;
  created_at = some c.created_at;
  enabled = some c.enabled;
}

-- The registration that `_load_caller_registry` builds from an object of the file.
unfoldable pub caller_of : Stored → Caller
caller_of s = record {
  reg_id = or_default s.reg_id [];
  name = or_default s.name [];
  script_path = or_default s.script_path [];
  script_hash = or_default s.script_hash [];
  description = [];
  script_hash_old = or_default s.script_hash_old [];
  hash_change_at = or_default s.hash_change_at 0;
  hash_change_notified = or_default s.hash_change_notified false;
  entries = or_default s.allowed_entries [];
  allow_mode = or_default s.allow_mode (codes "manual");
  can_auto_unlock = or_default s.can_auto_unlock false;
  created_at = or_default s.created_at [];
  enabled = or_default s.enabled true;
}

-- The dict that `_save_caller_registry` dumps, its integrity included.
unfoldable pub document : (Document → Text) → Text → List Caller → Document
unfolding stored_of
document digest updated_at callers =
    let data_part : Document = record {
      version = 3;
      updated_at = updated_at;
      callers = map stored_of callers;
      integrity = none;
    } in
    record data_part { integrity = some (digest data_part) }

-- The three dicts that loading fills.
pub record Tables : Type 0 where
  pub callers : Dict Caller
  pub by_path : Dict Text
  pub by_name : Dict Text

abbrev pub no_tables : Tables
no_tables = record { callers = []; by_path = []; by_name = [] }

-- One round of the loop over `data['callers']`.
unfoldable pub load_caller : Stored → Tables → Tables
unfolding caller_of
load_caller s t =
    let c = caller_of s in
    if truthy c.reg_id
    then record {
      callers = insert c.reg_id c t.callers;
      by_path = insert c.script_path c.reg_id t.by_path;
      by_name = insert c.name c.reg_id t.by_name;
    }
    else t

unfoldable pub load_callers : List Stored → Tables → Tables
unfolding load_caller
load_callers [] t = t
load_callers (s ∷ ss) t = load_callers ss (load_caller s t)

-- `none` is a missing file or one that is no JSON. A file with a wrong integrity is not read.
unfoldable pub load : (Document → Text) → Option Document → Tables
unfolding load_callers
load digest none = no_tables
load digest (some d) = elim d.integrity [
  | none ↦ load_callers d.callers no_tables
  | some stored ↦
      if text_eq stored (digest (record d { integrity = none }))
      then load_callers d.callers no_tables
      else no_tables
]
