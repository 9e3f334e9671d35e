-- ===== src/Approval.antt =====
-- The approval of an audited tool call: `_request_audit_approval` and its callers in _llm.py, and the
-- sweeper of _audit.py, on the state that they share with the reactions.
pub mod Decision
pub mod Granted
pub mod Cleared
pub mod Calls
use credential_proxy.Prelude.{
  ℕ, ◌+◌, Bool, true, false, not, Option, none, some, List, [], ◌∷◌, ◌++◌, Text, Dict, codes, any,
  if◌then◌else◌, text_eq, truthy, lookup, insert, erase,
}
use credential_proxy.Decimal.{decimal}
use credential_proxy.Proxy.{Proxy, AuditApproval}
use credential_proxy.Metrics.Counters.{bump}

-- The shared state, with the number of the next approval and the counts of the results.
pub record Desk : Type 0 where
  pub proxy : Proxy
  pub audit_pending_seq : ℕ
  pub results : Dict ℕ

pub data Result : Type 0 where
  approved : Result
  rejected : Result
  expired : Result
  failed : Result

abbrev pub result_text : Result → Text
result_text approved = codes "approved"
result_text rejected = codes "rejected"
result_text expired = codes "expired"
result_text failed = codes "failed"

-- `f'audit-{seq}'`
unfoldable pub audit_id : ℕ → Text
unfolding decimal
audit_id seq = codes "audit-" ++ decimal seq

abbrev pub set_pending : Dict AuditApproval → Desk → Desk
set_pending pending d = record d { proxy = record d.proxy { audit_approval_pending = pending } }

-- Up to the message: the id and the entry.
unfoldable pub begin : Text → Desk → Text × Desk
unfolding audit_id
begin name d =
    let req_id = audit_id d.audit_pending_seq in
    let entry : AuditApproval = record { name = name; approved = none; event = false } in
    (
      req_id,
      record d {
        proxy = record d.proxy {
          audit_approval_pending = insert req_id entry d.proxy.audit_approval_pending;
        };
        audit_pending_seq = d.audit_pending_seq + 1;
      },
    )

-- `_count_approval`
unfoldable pub count_approval : Result → Desk → Desk
unfolding bump
count_approval r d = record d { results = bump (result_text r) 1 d.results }

-- `self._audit_approval_pending.pop(req_id, None)`
unfoldable pub drop_pending : Text → Desk → Desk
drop_pending req_id d = set_pending (erase req_id d.proxy.audit_approval_pending) d

unfoldable pub drop_message : Text → Desk → Desk
drop_message msg_id d = record d {
  proxy = record d.proxy { audit_approval_msgs = erase msg_id d.proxy.audit_approval_msgs };
}

-- The message could not be sent, or sending it raised.
unfoldable pub not_sent : Text → Desk → Desk
unfolding count_approval drop_pending
not_sent req_id d = count_approval failed (drop_pending req_id d)

unfoldable pub message_sent : Text → Text → Desk → Desk
message_sent msg_id req_id d = record d {
  proxy = record d.proxy { audit_approval_msgs = insert msg_id req_id d.proxy.audit_approval_msgs };
}

-- How the wait ends: the event is set, the time is over, it raises an `Exception`, or the task is
-- cancelled: `asyncio.CancelledError` is a `BaseException`, which no clause catches.
pub data Wake : Type 0 where
  woken : Wake
  timed_out : Wake
  broken : Wake
  cancelled : Wake

-- The result of a wait whose event is set: the entry may have been taken away.
unfoldable pub verdict_at : Text → Desk → Result
verdict_at req_id d = elim (lookup req_id d.proxy.audit_approval_pending) [
  | none ↦ rejected
  | some ap ↦ elim ap.approved [ none ↦ rejected | some b ↦ if b then approved else rejected ]
]

-- How an approval ends: with a result, or with the `CancelledError`. The ids that the request created
-- and that are still tracked go with it.
pub record Ending : Type 0 where
  pub desk : Desk
  pub created_ids : List Text
  pub result : Option Result

-- `_created.remove(req_id)`, if it is there: the first one goes.
unfoldable pub remove_id : Text → List Text → List Text
unfolding text_eq
remove_id req_id [] = []
remove_id req_id (k ∷ ids) =
    let rest = remove_id req_id ids in if text_eq req_id k then ids else k ∷ rest

-- Behind the wait, but for a cancelled one: both entries go.
unfoldable pub settle_wait : Result → Text → Text → List Text → Desk → Ending
unfolding count_approval drop_message drop_pending remove_id
settle_wait r req_id msg_id created d = record {
  desk = count_approval r (drop_message msg_id (drop_pending req_id d));
  created_ids = remove_id req_id created;
  result = some r;
}

-- The way out where the task is cancelled: nothing is cleared.
abbrev pub cancelled_at : List Text → Desk → Ending
cancelled_at created d = record { desk = d; created_ids = created; result = none }

unfoldable pub end_wait : Wake → Text → Text → List Text → Desk → Ending
unfolding settle_wait verdict_at
end_wait woken req_id msg_id created d = settle_wait (verdict_at req_id d) req_id msg_id created d
end_wait timed_out req_id msg_id created d = settle_wait expired req_id msg_id created d
end_wait broken req_id msg_id created d = settle_wait failed req_id msg_id created d
end_wait cancelled req_id msg_id created d = cancelled_at created d

-- How `_ask` ends: with the id of the message, without one (it returned `None` or raised), or
-- cancelled.
pub data Asked : Type 0 where
  message : Text → Asked
  no_message : Asked
  ask_cancelled : Asked

-- What the awaits of one approval bring: the message, what other tasks do to the state meanwhile,
-- and how the wait ends.
pub record Awaits : Type 0 where
  pub asked : Asked
  pub while_sending : Desk → Desk
  pub while_waiting : Desk → Desk
  pub wake : Wake

abbrev pub unsent : Text → List Text → Desk → Ending
unsent req_id created d = record {
  desk = not_sent req_id d;
  created_ids = remove_id req_id created;
  result = some failed;
}

-- `_request_audit_approval`; `created` is what `_audit_created_ids_var` tracks for the request.
unfoldable pub request_audit_approval : Awaits → Text → List Text → Desk → Ending
unfolding begin not_sent message_sent end_wait
request_audit_approval a name created_ids d =
    let (req_id, d') = begin name d in
    let created = created_ids ++ (req_id ∷ []) in
    let d'' = a.while_sending d' in
    elim a.asked [
      | ask_cancelled ↦ cancelled_at created d''
      | no_message ↦ unsent req_id created d''
      | message msg_id ↦
          end_wait a.wake req_id msg_id created (a.while_waiting (message_sent msg_id req_id d''))
    ]

-- `pop` of each id.
unfoldable pub drop_ids : List Text → Dict AuditApproval → Dict AuditApproval
drop_ids [] pending = pending
drop_ids (k ∷ ids) pending = drop_ids ids (erase k pending)

-- The approvals without a decision.
unfoldable pub waiting : Dict AuditApproval → List Text
waiting [] = []
waiting ((k, ap) ∷ pending) =
    let rest = waiting pending in elim ap.approved [ none ↦ k ∷ rest | some b ↦ rest ]

-- One round of the sweeper: each of them is rejected, woken and taken away. The entry is gone before
-- the waiter looks for it.
unfoldable pub sweep : Desk → Desk
unfolding waiting drop_ids
sweep d =
    set_pending (drop_ids (waiting d.proxy.audit_approval_pending) d.proxy.audit_approval_pending) d

unfoldable pub drop_msgs_of : List Text → Dict Text → Dict Text
unfolding text_eq
drop_msgs_of ids [] = []
drop_msgs_of ids ((m, k) ∷ msgs) =
    let rest = drop_msgs_of ids msgs in if any (text_eq k) ids then rest else (m, k) ∷ rest

-- The end of a request, for the approvals that it created.
unfoldable pub cleanup : List Text → Desk → Desk
unfolding drop_ids drop_msgs_of
cleanup created_ids d = record d {
  proxy = record d.proxy {
    audit_approval_pending = drop_ids created_ids d.proxy.audit_approval_pending;
    audit_approval_msgs = drop_msgs_of created_ids d.proxy.audit_approval_msgs;
  };
}
