-- ===== src/Matrix.antt =====
-- `MatrixMixin` of _matrix.py: the commands and the reactions of the room. What `_say` sends is
-- left out; a task that `on_reaction` starts is part of its result.
pub mod Once
pub mod Sender
use credential_proxy.Prelude.{
  ℕ, suc, ◌+◌, Bool, true, false, ◌&&◌, ◌||◌, not, Option, none, some, List, [], ◌∷◌, map, Text,
  Dict, codes, truthy, strip, ◌==◌, ltb, if◌then◌else◌, any, text_eq, lookup, contains, insert,
  is_some,
}
use credential_proxy.Reactions.{reaction_approve, is_reaction}
use credential_proxy.Registry.{Registry, PendingRegistration, PendingChange}
use credential_proxy.Token.{forget_secrets}
use credential_proxy.Proxy.{Proxy, Request, AuditApproval, wake_unlock, drop_unlock, set_event}

-- A room message, and a reaction with the fields that `on_reaction` takes out of its source.
pub record Message : Type 0 where
  pub room : Text
  pub body : Text

pub record Reaction : Type 0 where
  pub room : Text
  pub server_timestamp : ℕ
  pub sender : Text
  pub event_id : Text
  pub key : Text

-- A background task: `_do_unlock(gen)` or `_resolve_hash_change(reg_id, new_hash, key)`.
pub data Task : Type 0 where
  unlock : ℕ → Task
  resolve : Text → Text → Text → Task

-- The events of the pending requests are set, whatever the order.
abbrev pub wake_requests : List (Text × Request) → Proxy → Proxy
wake_requests [] p = p
wake_requests ((k, r) ∷ rs) p = wake_requests rs (set_event r.event p)

-- The command `lock proxy`.
unfoldable pub lock_proxy : Proxy → Proxy
unfolding drop_unlock
lock_proxy p =
    let q = drop_unlock (record p { master_password = none }) in
    record (wake_requests p.pending_requests q) {
      unlock_in_progress = false;
      kp_cached = false;
      pending_requests = [];
      approval_msgs = [];
    }

unfoldable pub on_text : Message → Proxy → Proxy
unfolding lock_proxy forget_secrets text_eq
on_text m p =
    if not (text_eq m.room p.room_id)
    then p
    else let body = strip m.body in
      if text_eq body (codes "lock proxy")
      then lock_proxy p
      else if text_eq body (codes "forget secrets")
      then record p { tokens = forget_secrets p.tokens }
      else p

-- 1. The message asks to unlock.
unfoldable pub react_unlock : Text → Proxy → Proxy × Option Task
unfolding drop_unlock
react_unlock key p =
    if text_eq key reaction_approve
    then if p.unlock_in_progress then (p, none) else (
      record p { unlock_in_progress = true; unlock_generation = p.unlock_generation + 1 },
      some (unlock (p.unlock_generation + 1)),
    )
    else (drop_unlock p, none)

-- 2. The message asks for a registration.
unfoldable pub react_registration : Text → Text → Registry → Registry
react_registration reg_id key r = elim (lookup reg_id r.registration_pending) [
  | none ↦ r
  | some w ↦ if is_some w.approved then r else record r {
    registration_pending =
        insert reg_id (record w { approved = some key; event = true }) r.registration_pending;
  }
]

-- 3. The message tells of a changed hash.
unfoldable pub react_hash_change : Text → Text → Registry → Registry × Option Task
react_hash_change hc_id key r = elim (lookup hc_id r.hash_change_pending) [
  | none ↦ (r, none)
  | some w ↦ if is_some w.result then (r, none) else (
    record r {
      hash_change_pending =
          insert hc_id (record w { result = some key; event = true }) r.hash_change_pending;
    },
    some (resolve w.reg_id w.new_hash key),
  )
]

-- `self.approval_whitelist and sender not in self.approval_whitelist`, negated.
unfoldable pub may_approve : Text → Proxy → Bool
may_approve sender p = elim p.approval_whitelist [
  | [] ↦ true
  | w ∷ ws ↦ any (text_eq sender) (w ∷ ws)
]

-- The request that branch 4 is about: the message asks for it and it is undecided.
unfoldable pub open_request : Text → Proxy → Option (Text × Request)
open_request event_id p =
    if contains event_id p.audit_approval_msgs
    then none
    else elim (lookup event_id p.approval_msgs) [
      | none ↦ none
      | some req_id ↦
          if not (truthy req_id) then none else elim (lookup req_id p.pending_requests) [
            | none ↦ none
            | some r ↦ if is_some r.approved then none else some (req_id, r)
          ]
    ]

-- 4. The message asks for a credential.
unfoldable pub react_request : Text → Text → Text → Request → Proxy → Proxy
unfolding may_approve
react_request sender key req_id r p =
    if may_approve sender p
    then set_event r.event (record p {
      pending_requests =
          insert req_id (record r { approved = some (text_eq key reaction_approve) })
            p.pending_requests;
    })
    else p

-- 5. The message asks for an audited call.
unfoldable pub react_audit : Text → Text → Text → Proxy → Proxy
unfolding may_approve
react_audit sender key a_id p =
    if not (may_approve sender p) then p else elim (lookup a_id p.audit_approval_pending) [
      | none ↦ p
      | some w ↦ if is_some w.approved then p else record p {
        audit_approval_pending =
            insert a_id (record w { approved = some (text_eq key reaction_approve); event = true })
              p.audit_approval_pending;
      }
    ]

-- `d.get(k)` as the condition of an `elif`: a missing key and an empty text are falsy.
abbrev pub lookup_truthy : Text → Dict Text → Option Text
lookup_truthy k d = elim (lookup k d) [ none ↦ none | some x ↦ if truthy x then some x else none ]

-- Branches 4 and 5.
unfoldable pub react_approval : Text → Text → Text → Proxy → Proxy
unfolding open_request react_request react_audit
react_approval sender event_id key p = elim (open_request event_id p) [
  | some (req_id, r) ↦ react_request sender key req_id r p
  | none ↦ elim (lookup_truthy event_id p.audit_approval_msgs) [
    | none ↦ p
    | some a_id ↦ react_audit sender key a_id p
  ]
]

-- `self.unlock_event and self.master_password is None and orig == self._unlock_msg_id`
abbrev pub asks_unlock : Text → Proxy → Bool
asks_unlock event_id p =
    is_some p.unlock_event
    && not (is_some p.master_password)
    && elim p.unlock_msg_id [ none ↦ false | some m ↦ text_eq event_id m ]

-- The chain of branches.
unfoldable pub react : Text → Text → Text → Proxy → Proxy × Option Task
unfolding react_unlock react_registration react_hash_change react_approval
react sender event_id key p =
    if asks_unlock event_id p
    then react_unlock key p
    else elim (lookup_truthy event_id p.registry.registration_msgs) [
      | some reg_id ↦ (record p { registry = react_registration reg_id key p.registry }, none)
      | none ↦ elim (lookup_truthy event_id p.registry.hash_change_msgs) [
        | some hc_id ↦
            let (r, task) = react_hash_change hc_id key p.registry in
            (record p { registry = r }, task)
        | none ↦ (react_approval sender event_id key p, none)
      ]
    ]

-- The guards of `on_reaction`.
unfoldable pub is_heard : Reaction → Proxy → Bool
unfolding is_reaction
is_heard ev p =
    text_eq ev.room p.room_id
    && not (ltb 0 ev.server_timestamp && ltb ev.server_timestamp p.start_ts)
    && not (text_eq ev.sender p.user_id)
    && truthy ev.event_id
    && is_reaction ev.key

unfoldable pub on_reaction : Reaction → Proxy → Proxy × Option Task
unfolding is_heard react
on_reaction ev p = if is_heard ev p then react ev.sender ev.event_id ev.key p else (p, none)
