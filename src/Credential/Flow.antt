-- ===== src/Credential/Flow.antt =====
-- `handle_credential` of _credential.py from its sections. What happens elsewhere while the
-- handler awaits is any change of the state; what it awaits is given by the surroundings.
pub mod Justified
use credential_proxy.Prelude.{
  ℕ, ◌≡◌, refl, Bool, true, false, not, Option, none, some, List, [], ◌∷◌, Text, Dict, strip,
  if◌then◌else◌, lookup, insert, Bool-cases, Option-cases, inl, inr, ◌⊎◌, arith,
}
use credential_proxy.Registry.Store.{Caller}
use credential_proxy.Registry.{
  Registry, Verdict, approved, refused, mismatch, unmatched, check_auto_approve, notify_hash_change,
}
use credential_proxy.Proxy.{Proxy, Request, drop_unlock}
use credential_proxy.Credential.Reply.{Response, Error, fail}
use credential_proxy.Credential.{
  Config, AuthData, CredentialQuery, check_request, mark_notified, Entered, too_soon, unlocked,
  wait_unlock, enter, enqueue, cleanup_request, decision, approval_timeout, finish,
}

-- The clocks, the ids of the messages (`none`: `_ask` failed), the `uuid4`, whether the waits end
-- in time, and what other tasks do to the state during each await.
pub record Surroundings : Type 0 where
  pub wall_clock : ℕ
  pub monotonic : ℕ
  pub notify_msg : Option Text
  pub unlock_msg : Option Text
  pub approval_msg : Option Text
  pub req_id : Text
  pub unlock_in_time : Bool
  pub approval_in_time : Bool
  pub notifying : Proxy → Proxy
  pub asking_unlock : Proxy → Proxy
  pub waiting_unlock : Proxy → Proxy
  pub asking_approval : Proxy → Proxy
  pub waiting_approval : Proxy → Proxy

-- How the handler goes on: it answers, or it queries the database, for a registration or after
-- an approval.
pub data Outcome : Type 0 where
  reply : Response → Outcome
  auto_approve : Caller → Outcome
  release : Outcome

module _ (env : Surroundings) where
  settle : Proxy → Proxy × Outcome
  settle p =
      let (q, ok) = finish env.req_id p in
      (q, if ok then release else reply (fail 403 Error.approval_refused))

  await_approval : Text → Proxy → Proxy × Outcome
  unfolding settle
  await_approval msg_id p =
      let waited =
        env.waiting_approval
          (record p { approval_msgs = insert msg_id env.req_id p.approval_msgs }) in
      if env.approval_in_time
      then settle waited
      else let (q, late) = approval_timeout env.req_id waited in
        elim late [ some r ↦ (q, reply r) | none ↦ settle q ]

  ask_approval : CredentialQuery → Proxy → Proxy × Outcome
  unfolding await_approval
  ask_approval q p =
      let (p', queued) = enqueue env.req_id q p in
      if not queued
      then (p', reply (fail 403 Error.unlock_failed))
      else let asked = env.asking_approval p' in
        elim env.approval_msg [
          | none ↦ (cleanup_request env.req_id asked, reply (fail 503 Error.approval_not_sent))
          | some msg_id ↦ await_approval msg_id asked
        ]

  await_unlock : CredentialQuery → Proxy → Proxy × Outcome
  unfolding ask_approval
  await_unlock q p =
      let waited = env.waiting_unlock p in
      if env.unlock_in_time
      then ask_approval q waited
      else (drop_unlock waited, reply (fail 408 Error.unlock_timeout))

  ask_unlock : CredentialQuery → Bool → Proxy → Proxy × Outcome
  unfolding await_unlock
  ask_unlock q false p = await_unlock q p
  ask_unlock q true p =
      let asked = env.asking_unlock p in
      elim env.unlock_msg [
        | none ↦ (drop_unlock asked, reply (fail 503 Error.unlock_not_sent))
        | some msg_id ↦ await_unlock q (record asked { unlock_msg_id = some msg_id })
      ]

  -- From the rate limit on.
  by_matrix : CredentialQuery → Proxy → Proxy × Outcome
  unfolding ask_unlock
  by_matrix q p =
      let (p', entered) = enter env.monotonic p in
      elim entered [
        | too_soon ↦ (p', reply (fail 429 Error.too_frequent))
        | unlocked ↦ ask_approval q p'
        | wait_unlock e ask ↦ ask_unlock q ask p'
      ]

  -- The notification of a changed hash, once for each change.
  report_mismatch : CredentialQuery → Caller → Proxy → Proxy
  report_mismatch q c p =
      let (p', told) = mark_notified c.reg_id p in
      elim told [
        | none ↦ p'
        | some marked ↦
            let told_p = env.notifying p' in
            record told_p {
              registry =
                  notify_hash_change env.notify_msg marked q.auth.caller_hash told_p.registry;
            }
      ]

  unfoldable pub handle_credential : Config → CredentialQuery → Proxy → Proxy × Outcome
  unfolding by_matrix report_mismatch
  handle_credential cfg q p = elim (check_request cfg q) [
    | some r ↦ (p, reply r)
    | none ↦
        elim (check_auto_approve env.wall_clock (strip q.entry) (some (strip q.field))
          q.auth.caller_hash q.auth.caller_path p.registry) [
            | approved c ↦ (p, auto_approve c)
            | refused c ↦ (p, reply (fail 403 (Error.not_permitted c.name (strip q.entry))))
            | mismatch c ↦ by_matrix q (report_mismatch q c p)
            | unmatched ↦ by_matrix q p
          ]
  ]
