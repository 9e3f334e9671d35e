-- ===== src/Registry.antt =====
-- `RegistryMixin` of _registry.py: the registered callers with their indexes by name and by path.
-- Each function is one critical section under `self._lock`. Times are whole milliseconds. An
-- object of the registry is mutated in place there; here it is written back under its key.
pub mod Store
pub mod Invariant
pub mod Approval
pub mod Mode
pub mod Rate
pub mod Reach
pub mod Roundtrip
use credential_proxy.Prelude.{
  ℕ, ◌-◌, Bool, true, false, ◌&&◌, ◌||◌, not, Option, none, some, List, [], ◌∷◌, Text, Dict, truthy,
  codes, ltb, ◌==◌, if◌then◌else◌, any, text_eq, lookup, contains, insert, erase, values,
}
use credential_proxy.Reactions.{reaction_approve, reaction_auto_unlock}
use Store.{Caller, Document, document}

-- `_registration_pending[reg_id]`; `event` tells whether the `asyncio.Event` is set.
pub record PendingRegistration : Type 0 where
  pub reg_id : Text
  pub name : Text
  pub approved : Option Text
  pub event : Bool

-- `_hash_change_pending[reg_id]`
pub record PendingChange : Type 0 where
  pub reg_id : Text
  pub new_hash : Text
  pub result : Option Text
  pub event : Bool

pub record Registry : Type 0 where
  pub callers : Dict Caller
  pub by_path : Dict Text
  pub by_name : Dict Text
  pub registration_pending : Dict PendingRegistration
  pub registration_msgs : Dict Text
  pub hash_change_pending : Dict PendingChange
  pub hash_change_msgs : Dict Text
  pub auto_rate_limits : Dict ℕ
  pub disk : Option Document

abbrev pub grace_period : ℕ
grace_period = 3_600_000

abbrev pub auto_rate_interval : ℕ
auto_rate_interval = 1000

-- `RegisteredCaller.in_grace_period`
unfoldable pub in_grace_period : ℕ → Caller → Bool
in_grace_period now c =
    if c.hash_change_at == 0 then false else ltb (now - c.hash_change_at) grace_period

unfoldable pub name_exists : Text → Registry → Bool
name_exists name r =
    contains name r.by_name || any (λ p. text_eq p.name name) (values r.registration_pending)

unfoldable pub lookup_by_name : Text → Registry → Option Caller
lookup_by_name name r = elim (lookup name r.by_name) [
  | none ↦ none
  | some rid ↦ if truthy rid then lookup rid r.callers else none
]

-- The test that the loop of `_find_caller_by_hash` applies to one registration.
unfoldable pub hash_matches : ℕ → Text → Text → Caller → Bool
unfolding in_grace_period
hash_matches now script_hash script_path c =
    c.enabled
    && ((text_eq c.script_hash script_hash && text_eq c.script_path script_path)
        || (in_grace_period now c
            && text_eq c.script_hash_old script_hash
            && text_eq c.script_path script_path))

unfoldable pub first_match : (Caller → Bool) → List Caller → Option Caller
first_match p [] = none
first_match p (c ∷ cs) = if p c then some c else first_match p cs

unfoldable pub find_caller_by_hash : ℕ → Text → Text → Registry → Option Caller
unfolding first_match hash_matches
find_caller_by_hash now script_hash script_path r =
    first_match (hash_matches now script_hash script_path) (values r.callers)

unfoldable pub find_caller_by_path : Text → Registry → Option Caller
find_caller_by_path script_path r = elim (lookup script_path r.by_path) [
  | none ↦ none
  | some rid ↦ if truthy rid then lookup rid r.callers else none
]

-- `field` is `None` or a text.
unfoldable pub check_entry_allowed : Caller → Text → Option Text → Bool
check_entry_allowed c entry_name field =
    if not c.enabled then false else elim (lookup entry_name c.entries) [
      | none ↦ false
      | some [] ↦ true
      | some (f ∷ fs) ↦ elim field [ none ↦ true | some x ↦ any (text_eq x) (f ∷ fs) ]
    ]

-- The four results of `_check_auto_approve`: (True, reg, ''), (False, reg, reason),
-- (None, reg, 'hash_mismatch') and (None, None, '').
pub data Verdict : Type 0 where
  approved : Caller → Verdict
  refused : Caller → Verdict
  mismatch : Caller → Verdict
  unmatched : Verdict

-- The fallback of `_check_auto_approve` when no hash matches.
unfoldable pub path_verdict : Text → Registry → Verdict
unfolding find_caller_by_path
path_verdict caller_path r = elim (find_caller_by_path caller_path r) [
  | none ↦ unmatched
  | some c ↦ if c.enabled then mismatch c else unmatched
]

unfoldable pub check_auto_approve : ℕ → Text → Option Text → Text → Text → Registry → Verdict
unfolding find_caller_by_hash check_entry_allowed path_verdict
check_auto_approve now entry_name field caller_hash caller_path r =
    if truthy caller_hash
    then elim (find_caller_by_hash now caller_hash caller_path r) [
      | none ↦ path_verdict caller_path r
      | some c ↦ if check_entry_allowed c entry_name field then approved c else refused c
    ]
    else unmatched

-- The state after the call, and whether the request may pass. `now` is `time.monotonic()`.
unfoldable pub check_auto_rate_limit : ℕ → Text → Registry → Registry × Bool
check_auto_rate_limit now name r =
    let last : ℕ = elim (lookup name r.auto_rate_limits) [ none ↦ 0 | some t ↦ t ] in
    if ltb (now - last) auto_rate_interval
    then (r, false)
    else (record r { auto_rate_limits = insert name now r.auto_rate_limits }, true)

-- `reg_id` comes from `secrets.token_hex`, `created_at` from the clock. The flag `enabled` of
-- the new registration is down until it is activated.
unfoldable pub register_caller : Caller → Registry → Registry
register_caller c r =
    let new : Caller = record c {
      script_hash_old = [];
      hash_change_at = 0;
      hash_change_notified = false;
      enabled = false;
    } in
    record r {
      callers = insert c.reg_id new r.callers;
      by_path = insert c.script_path c.reg_id r.by_path;
      by_name = insert c.name c.reg_id r.by_name;
    }

-- `_notify_hash_change`, after `_ask` returned `msg_id`.
unfoldable pub notify_hash_change : Option Text → Caller → Text → Registry → Registry
notify_hash_change none c new_hash r = r
notify_hash_change (some msg_id) c new_hash r = record r {
  hash_change_pending =
      insert c.reg_id
        (record { reg_id = c.reg_id; new_hash = new_hash; result = none; event = false })
        r.hash_change_pending;
  hash_change_msgs = insert msg_id c.reg_id r.hash_change_msgs;
}

-- The three branches of `_resolve_hash_change` on the registration itself.
unfoldable pub resolve_caller : Text → Text → Caller → Caller
resolve_caller new_hash reaction c =
    if text_eq reaction reaction_auto_unlock
    then record c {
      script_hash_old = c.script_hash;
      script_hash = new_hash;
      hash_change_at = 0;
      hash_change_notified = false;
    }
    else if text_eq reaction reaction_approve
    then record c {
      script_hash_old = c.script_hash;
      script_hash = new_hash;
      hash_change_at = 0;
      hash_change_notified = false;
      allow_mode = codes "manual";
    }
    else record c { enabled = false }

-- What `_save_caller_registry` leaves where writing the file raises: the change is in memory, and the
-- file is the one from before.
unfoldable pub unsaved : Registry → Registry → Registry
unsaved old changed = record changed { disk = old.disk }

-- What writes the file takes the digest of `_compute_registry_integrity` and the clock's text.
module _ (digest : Document → Text) (updated_at : Text) where
  unfoldable pub save : Registry → Registry
  unfolding document
  save r = record r { disk = some (document digest updated_at (values r.callers)) }

  unfoldable pub activate_caller : Text → Registry → Registry
  unfolding save
  activate_caller reg_id r = elim (lookup reg_id r.callers) [
    | none ↦ r
    | some c ↦ save (record r { callers = insert reg_id (record c { enabled = true }) r.callers })
  ]

  unfoldable pub revoke_caller : Text → Registry → Registry × Bool
  unfolding save
  revoke_caller reg_id r = elim (lookup reg_id r.callers) [
    | none ↦ (r, false)
    | some c ↦ (
      save (record r {
        callers = erase reg_id r.callers;
        by_name = erase c.name r.by_name;
        by_path = erase c.script_path r.by_path;
      }),
      true,
    )
  ]

  unfoldable pub resolve_hash_change : Text → Text → Text → Registry → Registry
  unfolding save resolve_caller
  resolve_hash_change reg_id new_hash reaction r = elim (lookup reg_id r.callers) [
    | none ↦ r
    | some c ↦
        let saved =
          save
            (record r { callers = insert reg_id (resolve_caller new_hash reaction c) r.callers }) in
        record saved { hash_change_pending = erase reg_id r.hash_change_pending }
  ]
