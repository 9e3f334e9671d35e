-- ===== src/Credential/Registration.antt =====
-- The handlers of _credential.py that change the registry, and the automatic approval. What
-- `_ask` returns, how a wait ends and what other tasks do meanwhile is given by the surroundings;
-- saving takes the digest and the clock of _registry.py.
pub mod Emergency
pub mod Outcome
use credential_proxy.Prelude.{
  ℕ, Bool, true, false, ◌||◌, not, Option, none, some, List, [], ◌∷◌, ◌++◌, Text, Dict, codes,
  truthy, strip, if◌then◌else◌, text_eq, lookup, insert, erase, any, starts_with, contains,
}
use credential_proxy.Reactions.{reaction_reject, reaction_auto_unlock, is_reaction}
use credential_proxy.Registry.Store.{Caller, Document}
use credential_proxy.Registry.{
  Registry, PendingRegistration, name_exists, lookup_by_name, register_caller, activate_caller,
  revoke_caller, resolve_hash_change, check_auto_rate_limit, save, unsaved,
}
use credential_proxy.Proxy.{Proxy}
use credential_proxy.Credential.Reply.{Response, Error, fail, revoked, activated, resolved}
use credential_proxy.Credential.{
  Config, AuthData, require_auth, enqueue_revoke, cleanup_request, decision,
}

-- What the handlers get from outside.
pub record Surroundings : Type 0 where
  pub digest : Document → Text
  pub updated_at : Text
  pub msg_id : Option Text
  pub in_time : Bool
  -- whether `_save_caller_registry` writes the file, the first time and the second
  pub first_written : Bool
  pub second_written : Bool
  pub asking : Proxy → Proxy
  pub waiting : Proxy → Proxy

-- The body of /revoke and /revoke/emergency; `peer` is `request.remote`.
pub record RevokeBody : Type 0 where
  pub name : Text
  pub auth : AuthData
  pub admin_token : Text
  pub peer : Text

-- The body of /register-caller, with the defaults for what is missing.
pub record RegisterBody : Type 0 where
  pub name : Text
  pub auth : AuthData
  pub script_path : Text
  pub script_hash : Text
  pub description : Text
  pub entries : Dict (List Text)
  pub allow_mode : Text
  pub can_auto_unlock : Bool

-- The body of /approve-hash-change.
pub record ChangeBody : Type 0 where
  pub auth : AuthData
  pub reg_id : Text
  pub reaction : Text
  pub new_hash : Text

abbrev pub with_registry : (Registry → Registry) → Proxy → Proxy
with_registry f p = record p { registry = f p.registry }

-- `peer.startswith(('10.', '172.', '192.168.'))`
unfoldable pub is_internal : Text → Bool
unfolding starts_with
is_internal peer = any (starts_with peer) (codes "10." ∷ codes "172." ∷ codes "192.168." ∷ [])

-- The registration and its message leave the tables of those that wait.
abbrev pub close_registration : Text → Text → Registry → Registry
close_registration reg_id msg_id r = record r {
  registration_pending = erase reg_id r.registration_pending;
  registration_msgs = erase msg_id r.registration_msgs;
}

abbrev pub new_caller : Text → Text → RegisterBody → Caller
new_caller reg_id created_at b = record {
  reg_id = reg_id;
  name = strip b.name;
  script_path = strip b.script_path;
  script_hash = strip b.script_hash;
  description = strip b.description;
  script_hash_old = [];
  hash_change_at = 0;
  hash_change_notified = false;
  entries = b.entries;
  allow_mode = b.allow_mode;
  can_auto_unlock = b.can_auto_unlock;
  created_at = created_at;
  enabled = false;
}

module _ (env : Surroundings) where
  abbrev pub revoked_registry : Text → Registry → Registry
  revoked_registry reg_id r = (revoke_caller env.digest env.updated_at reg_id r).0

  -- The end of both revocations: the registration that the name leads to is revoked, if its id
  -- is not empty.
  unfoldable pub revoke_named : Text → Proxy → Proxy × Response
  revoke_named name p = elim (lookup_by_name name p.registry) [
    | none ↦ (p, fail 404 (Error.no_registration name))
    | some c ↦
        (if truthy c.reg_id then with_registry (revoked_registry c.reg_id) p else p, revoked name)
  ]

  -- `handle_revoke` from the answer to the approval on.
  unfoldable pub revoke_decided : Text → Text → Proxy → Proxy × Response
  unfolding revoke_named
  revoke_decided req_id name p =
      let q = cleanup_request req_id p in
      if (elim (decision req_id p) [ some true ↦ true | _ ↦ false ])
      then revoke_named name q
      else (q, fail 403 Error.revoke_refused)

  unfoldable pub revoke_asked : Text → Text → Text → Proxy → Proxy × Response
  unfolding revoke_decided
  revoke_asked req_id msg_id name p =
      let waited = env.waiting (enqueue_revoke req_id msg_id name p) in
      if env.in_time
      then revoke_decided req_id name waited
      else (cleanup_request req_id waited, fail 408 Error.revoke_timeout)

  -- `handle_revoke`
  unfoldable pub handle_revoke : Config → Text → RevokeBody → Proxy → Proxy × Response
  unfolding revoke_asked
  handle_revoke cfg req_id b p = elim (require_auth cfg b.auth) [
    | some r ↦ (p, r)
    | none ↦
        if not (truthy (strip b.name))
        then (p, fail 400 Error.missing_name)
        else elim (lookup_by_name (strip b.name) p.registry) [
          | none ↦ (p, fail 404 (Error.no_registration (strip b.name)))
          | some c ↦ elim env.msg_id [
            | none ↦ (env.asking p, fail 503 Error.approval_not_sent)
            | some m ↦ revoke_asked req_id m (strip b.name) (env.asking p)
          ]
        ]
  ]

  -- `handle_revoke_emergency`; `admin_token` is the one of the environment or of the file, and
  -- the empty text where there is neither.
  unfoldable pub handle_revoke_emergency : Config → Text → RevokeBody → Proxy → Proxy × Response
  unfolding revoke_named is_internal
  handle_revoke_emergency cfg admin_token b p = elim (require_auth cfg b.auth) [
    | some r ↦ (p, r)
    | none ↦
        if not (text_eq b.admin_token admin_token || is_internal b.peer)
        then (p, fail 403 Error.no_admin_token)
        else if not (truthy (strip b.name))
        then (p, fail 400 Error.missing_name)
        else revoke_named (strip b.name) p
  ]

  -- `reg.allow_mode = 'auto'`, `reg.can_auto_unlock = True`, and the file is written.
  unfoldable pub grant_auto : Text → Registry → Registry
  unfolding save
  grant_auto reg_id r = elim (lookup reg_id r.callers) [
    | none ↦ r
    | some c ↦ save env.digest env.updated_at (record r {
      callers =
          insert reg_id (record c { allow_mode = codes "auto"; can_auto_unlock = true }) r.callers;
    })
  ]

  -- A change of a registration with its write, and the answer behind it. A write that raises is
  -- answered by a 500; nothing is written for a registration that is not there.
  unfoldable pub written : Bool → Text → Registry → Registry → Response → Registry × Response
  unfolding unsaved
  written ok reg_id old changed reply =
      if ok || not (contains reg_id old.callers)
      then (changed, reply)
      else (unsaved old changed, fail 500 Error.registry_not_written)

  -- `_revoke_caller`, and the answer behind it.
  unfoldable pub revoked_with : Text → Response → Registry → Registry × Response
  unfolding written
  revoked_with reg_id reply r = written env.first_written reg_id r (revoked_registry reg_id r) reply

  -- `_activate_caller`, and for 🔓 the second change with its own write.
  unfoldable pub activated_with : Text → Response → Bool → Registry → Registry × Response
  unfolding grant_auto written
  activated_with reg_id reply auto r =
      let active = activate_caller env.digest env.updated_at reg_id r in
      if not auto
      then written env.first_written reg_id r active reply
      else if env.first_written || not (contains reg_id r.callers)
      then written env.second_written reg_id active (grant_auto reg_id active) reply
      else (unsaved r active, fail 500 Error.registry_not_written)

  -- What the reaction makes of the registration. It is read from the table just before it is
  -- closed; nothing else removes it there.
  unfoldable pub registration_decided : Text → Text → Option Text → Registry → Registry × Response
  unfolding revoked_with activated_with
  registration_decided reg_id name reaction r =
      let rejected : Bool = elim reaction [ none ↦ false | some x ↦ text_eq x reaction_reject ] in
      let auto : Bool = elim reaction [ none ↦ false | some x ↦ text_eq x reaction_auto_unlock ] in
      if rejected
      then revoked_with reg_id (fail 403 Error.registration_refused) r
      else activated_with reg_id (activated reg_id name) auto r

  abbrev pub put_registry : Proxy → Registry × Response → Proxy × Response
  put_registry p (r, reply) = (record p { registry = r }, reply)

  unfoldable pub registration_waited : Text → Text → Text → Proxy → Proxy × Response
  unfolding registration_decided revoked_with
  registration_waited reg_id msg_id name p =
      let reaction : Option Text = elim (lookup reg_id p.registry.registration_pending) [
        | none ↦ none
        | some w ↦ w.approved
      ] in
      let closed = close_registration reg_id msg_id p.registry in
      put_registry p (
        if env.in_time
        then registration_decided reg_id name reaction closed
        else revoked_with reg_id (fail 408 Error.approval_timeout) closed)

  -- The pending registration and its message are entered.
  unfoldable pub registration_entered : Text → Text → Text → Proxy → Proxy
  registration_entered reg_id msg_id name p =
      with_registry
        (λ r. record r {
          registration_pending =
              insert reg_id
                (record { reg_id = reg_id; name = name; approved = none; event = false })
                r.registration_pending;
          registration_msgs = insert msg_id reg_id r.registration_msgs;
        })
        p

  -- The decision is waited for.
  unfoldable pub registration_asked : Text → Text → Text → Proxy → Proxy × Response
  unfolding registration_waited registration_entered
  registration_asked reg_id msg_id name p =
      registration_waited reg_id msg_id name
        (env.waiting (registration_entered reg_id msg_id name p))

  -- `handle_register_caller`
  unfoldable pub handle_register_caller :
      Config → Text → Text → RegisterBody → Proxy → Proxy × Response
  unfolding registration_asked revoked_with
  handle_register_caller cfg reg_id created_at b p = elim (require_auth cfg b.auth) [
    | some r ↦ (p, r)
    | none ↦
        if not (truthy (strip b.name))
        then (p, fail 400 Error.missing_name)
        else if name_exists (strip b.name) p.registry
        then (p, fail 409 (Error.name_taken (strip b.name)))
        else if not (truthy (strip b.script_path)) || not (truthy (strip b.script_hash))
        then (p, fail 400 Error.missing_script)
        else let asked =
            env.asking (with_registry (register_caller (new_caller reg_id created_at b)) p) in
          elim env.msg_id [
            | none ↦
                put_registry asked
                  (revoked_with reg_id (fail 503 Error.approval_not_sent) asked.registry)
            | some m ↦ registration_asked reg_id m (strip b.name) asked
          ]
  ]

  -- `handle_approve_hash_change`
  unfoldable pub handle_approve_hash_change : Config → ChangeBody → Proxy → Proxy × Response
  handle_approve_hash_change cfg b p = elim (require_auth cfg b.auth) [
    | some r ↦ (p, r)
    | none ↦
        if not (truthy (strip b.reg_id))
          || not (truthy (strip b.reaction))
          || not (truthy (strip b.new_hash))
        then (p, fail 400 Error.missing_change)
        else if not (is_reaction (strip b.reaction))
        then (p, fail 400 Error.bad_reaction)
        else elim (lookup (strip b.reg_id) p.registry.callers) [
          | none ↦ (p, fail 404 (Error.no_registration (strip b.reg_id)))
          | some c ↦ (
            with_registry
                (resolve_hash_change env.digest env.updated_at (strip b.reg_id) (strip b.new_hash)
                  (strip b.reaction))
                p,
            resolved c.name,
          )
        ]
  ]
