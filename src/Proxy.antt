-- ===== src/Proxy.antt =====
-- The state that `CredentialProxy.__init__` (proxy.py) sets up and the mixins share. An
-- `asyncio.Event` is a number, `next_event` the next one; those set are in `set_events`.
use credential_proxy.Prelude.{
  ℕ, Bool, Option, none, some, List, ◌∷◌, Text, Dict, ◌==◌, any, if◌then◌else◌,
}
use credential_proxy.Registry.{Registry}
use credential_proxy.Token.{Tokens}

-- `pending_requests[req_id]`
pub record Request : Type 0 where
  pub entry : Text
  pub field : Option Text
  pub use_token : Bool
  pub approved : Option Bool
  pub event : ℕ

-- `_audit_approval_pending[a_id]`
pub record AuditApproval : Type 0 where
  pub name : Text
  pub approved : Option Bool
  pub event : Bool

-- The KeePass cache `_kp` is a flag here: whether it is filled.
pub record Proxy : Type 0 where
  pub room_id : Text
  pub user_id : Text
  pub start_ts : ℕ
  pub approval_whitelist : List Text
  pub master_password : Option Text
  pub kp_cached : Bool
  pub unlock_event : Option ℕ
  pub unlock_msg_id : Option Text
  pub unlock_in_progress : Bool
  pub unlock_generation : ℕ
  pub auto_unlock_event : Option ℕ
  pub set_events : List ℕ
  pub next_event : ℕ
  pub pending_requests : Dict Request
  pub approval_msgs : Dict Text
  pub audit_approval_msgs : Dict Text
  pub audit_approval_pending : Dict AuditApproval
  pub last_credential_request : ℕ
  pub registry : Registry
  pub tokens : Tokens

-- `evt.is_set()`
unfoldable pub is_set : ℕ → Proxy → Bool
is_set e p = any (λ x. x == e) p.set_events

-- `evt.set()`
abbrev pub set_event : ℕ → Proxy → Proxy
set_event e p = record p { set_events = e ∷ p.set_events }

-- `if self.unlock_event and not self.unlock_event.is_set(): self.unlock_event.set()`
unfoldable pub wake_unlock : Proxy → Proxy
unfolding is_set
wake_unlock p = elim p.unlock_event [ none ↦ p | some e ↦ if is_set e p then p else set_event e p ]

-- The same, and the event and its message are forgotten.
unfoldable pub drop_unlock : Proxy → Proxy
unfolding wake_unlock
drop_unlock p =
    let woken = wake_unlock p in record woken { unlock_event = none; unlock_msg_id = none }
