-- ===== src/Credential.antt =====
-- `CredentialMixin` of _credential.py: the checks of a request, and `handle_credential` as the
-- sequence of its critical sections.
pub mod Reply
pub mod Flow
pub mod Query
pub mod Registration
pub mod Auth
pub mod Decision
pub mod Release
pub mod Serve
use credential_proxy.Prelude.{
  ℕ, suc, ◌+◌, ◌-◌, Bool, true, false, ◌&&◌, ◌||◌, not, Option, none, some, List, [], ◌∷◌, ◌++◌,
  codes, Text, Dict, truthy, strip, ltb, if◌then◌else◌, text_eq, lookup, insert, erase,
}
use credential_proxy.Registry.Store.{Caller}
use credential_proxy.Registry.{
  Registry, Verdict, approved, refused, mismatch, unmatched, check_auto_approve, notify_hash_change,
}
use credential_proxy.Proxy.{Proxy, Request, drop_unlock}
use Reply.{Response, Error, fail}

-- `GET_BINARY_HASH` and `GET_BINARY_SECRET`; the empty text where they are not set.
pub record Config : Type 0 where
  pub get_binary_hash : Text
  pub get_binary_secret : Text

-- The dict `auth` of a body, or the headers; the empty text for what is missing.
pub record AuthData : Type 0 where
  pub get_binary_hash : Text
  pub get_binary_secret : Text
  pub caller_hash : Text
  pub caller_path : Text

-- The parsed body of /credential, with `True` for a missing `token`.
pub record CredentialQuery : Type 0 where
  pub entry : Text
  pub field : Text
  pub use_token : Bool
  pub auth : AuthData

-- `_require_auth`: `none` lets the request pass.
unfoldable pub require_auth : Config → AuthData → Option Response
require_auth cfg a =
    if not (truthy cfg.get_binary_hash) && not (truthy cfg.get_binary_secret)
    then none
    else if not (truthy a.get_binary_hash) || not (text_eq a.get_binary_hash cfg.get_binary_hash)
    then some (fail 403 Error.bad_binary_hash)
    else if not (truthy a.get_binary_secret)
        || not (text_eq a.get_binary_secret cfg.get_binary_secret)
    then some (fail 403 Error.bad_binary_secret)
    else none

-- The refusal of a raw value to a terminal.
unfoldable pub refuses_raw : Config → CredentialQuery → Bool
refuses_raw cfg q =
    not q.use_token
    && truthy q.auth.caller_hash
    && truthy cfg.get_binary_hash
    && text_eq q.auth.caller_hash cfg.get_binary_hash

-- The checks of `handle_credential` in front of the automatic approval.
unfoldable pub check_request : Config → CredentialQuery → Option Response
unfolding require_auth refuses_raw
check_request cfg q =
    if not (truthy (strip q.entry))
    then some (fail 400 Error.missing_entry)
    else elim (require_auth cfg q.auth) [
      | some r ↦ some r
      | none ↦
          if not (truthy q.auth.caller_hash)
          then some (fail 403 Error.missing_caller_hash)
          else if refuses_raw cfg q
          then some (fail 403 Error.raw_refused)
          else none
    ]

-- `not self.master_password`
abbrev pub is_locked : Proxy → Bool
is_locked p = elim p.master_password [ none ↦ true | some m ↦ not (truthy m) ]

-- Marks the registration whose hash changed, and says whether to notify.
unfoldable pub mark_notified : Text → Proxy → Proxy × Option Caller
mark_notified reg_id p = elim (lookup reg_id p.registry.callers) [
  | none ↦ (p, none)
  | some c ↦
      if c.hash_change_notified
      then (p, none)
      else let marked : Caller = record c { hash_change_notified = true } in
        let reg : Registry = record p.registry {
          callers = insert reg_id marked p.registry.callers;
        } in
        (record p { registry = reg }, some marked)
]

-- `RATE_LIMIT_INTERVAL`, in milliseconds.
abbrev pub rate_limit_interval : ℕ
rate_limit_interval = 2000

pub data Entered : Type 0 where
  too_soon : Entered
  unlocked : Entered
  wait_unlock : ℕ → Bool → Entered

-- The rate limit and the unlock state; `wait_unlock e ask` waits for `e`, and asks first where
-- `ask` says so.
unfoldable pub enter : ℕ → Proxy → Proxy × Entered
enter now p =
    if ltb (now - p.last_credential_request) rate_limit_interval
    then (p, too_soon)
    else let q : Proxy = record p { last_credential_request = now } in
      if is_locked p
      then elim p.unlock_event [
        | some e ↦ (q, wait_unlock e false)
        | none ↦ (
          record q { unlock_event = some p.next_event; next_event = p.next_event + 1 },
          wait_unlock p.next_event true,
        )
      ]
      else (q, unlocked)

-- The request joins those that wait for an approval; `none` where the proxy is locked.
unfoldable pub enqueue : Text → CredentialQuery → Proxy → Proxy × Bool
enqueue req_id q p = if is_locked p then (p, false) else (
  record p {
    next_event = p.next_event + 1;
    pending_requests =
        insert req_id
          (record {
            entry = strip q.entry;
            field = some (strip q.field);
            use_token = q.use_token;
            approved = none;
            event = p.next_event;
          })
          p.pending_requests;
  },
  true,
)

-- The messages that lead to the request are forgotten with it.
unfoldable pub erase_value : Text → Dict Text → Dict Text
erase_value v [] = []
erase_value v ((k, w) ∷ d) =
    let rest = erase_value v d in if text_eq w v then rest else (k, w) ∷ rest

-- `_cleanup_request`
unfoldable pub cleanup_request : Text → Proxy → Proxy
unfolding erase_value
cleanup_request req_id p = record p {
  pending_requests = erase req_id p.pending_requests;
  approval_msgs = erase_value req_id p.approval_msgs;
}

-- `req.get('approved') if req else None`
abbrev pub decision : Text → Proxy → Option Bool
decision req_id p = elim (lookup req_id p.pending_requests) [ none ↦ none | some r ↦ r.approved ]

-- The approval timed out: `none` where it was given at the last moment.
unfoldable pub approval_timeout : Text → Proxy → Proxy × Option Response
unfolding cleanup_request
approval_timeout req_id p = elim (decision req_id p) [
  | some true ↦ (p, none)
  | some false ↦ (cleanup_request req_id p, some (fail 403 Error.approval_refused))
  | none ↦ (cleanup_request req_id p, some (fail 408 Error.approval_timeout))
]

-- The decision is read and the request forgotten.
unfoldable pub finish : Text → Proxy → Proxy × Bool
unfolding cleanup_request
finish req_id p =
    (cleanup_request req_id p, elim (decision req_id p) [ some true ↦ true | _ ↦ false ])

-- The request that `handle_revoke` adds for its message; the two are entered in one section.
unfoldable pub enqueue_revoke : Text → Text → Text → Proxy → Proxy
enqueue_revoke req_id msg_id name p = record p {
  next_event = p.next_event + 1;
  pending_requests =
      insert req_id
        (record {
          entry = codes "revoke:" ++ name;
          field = none;
          use_token = true;
          approved = none;
          event = p.next_event;
        })
        p.pending_requests;
  approval_msgs = insert msg_id req_id p.approval_msgs;
}
