-- ===== src/Approval/Granted.antt =====
-- No audited call is approved but by a reaction: every section of _llm.py and _audit.py that touches
-- the pending approvals, over any run.
use credential_proxy.Prelude.{
  ◌≡◌, ◌≢◌, refl, sym, ap, ◌∙◌, Bool, true, false, Option, none, some, List, [], ◌∷◌, ◌++◌, ◌⊎◌,
  Text, Dict, Any, lookup, erase, lookup-insert, lookup-erase, lookup-insert_self, inl, inr, arith,
}
use credential_proxy.Proxy.{Proxy, AuditApproval}
use credential_proxy.Matrix.{Reaction, on_reaction}
use credential_proxy.Approval.{
  Desk, Result, approved, failed, Wake, woken, timed_out, broken, cancelled, Asked, message,
  no_message, ask_cancelled, unsent, cancelled_at, settle_wait, audit_id, begin, not_sent,
  message_sent, end_wait, Awaits, request_audit_approval, waiting, sweep, drop_ids, cleanup,
  verdict_at, count_approval, drop_pending, drop_message,
}
use credential_proxy.Approval.Decision.{audit_decision, ApprovesCall, on_reaction-audit_decision}

-- A section of the handlers of audited calls, or of any other that leaves their approvals alone.
pub data Section : Desk → Desk → Type 0 where
  begun : (name : Text) (d : Desk) → Section d (begin name d).1
  not_asked : (k : Text) (d : Desk) → Section d (not_sent k d)
  sent : (m k : Text) (d : Desk) → Section d (message_sent m k d)
  ended :
      (w : Wake) (k m : Text) (ids : List Text) (d : Desk) → Section d (end_wait w k m ids d).desk
  swept : (d : Desk) → Section d (sweep d)
  cleaned : (ids : List Text) (d : Desk) → Section d (cleanup ids d)
  other :
      (d e : Desk) → e.proxy.audit_approval_pending ≡ d.proxy.audit_approval_pending → Section d e

-- The decision that a table holds.
abbrev decided : Text → Dict AuditApproval → Option Bool
decided rid pending = elim (lookup rid pending) [ none ↦ none | some ap ↦ ap.approved ]

module _ (rid : Text) where
  decided-erase :
      (k : Text) (pending : Dict AuditApproval)
      → decided rid (erase k pending) ≡ some true
      → decided rid pending ≡ some true
  decided-erase k pending h = ground (arith, lookup-erase k rid pending)

  decided-drop_ids :
      (ids : List Text) (pending : Dict AuditApproval)
      → decided rid (drop_ids ids pending) ≡ some true
      → decided rid pending ≡ some true
  unfolding drop_ids
  decided-drop_ids [] pending h = h
  decided-drop_ids (k ∷ ids) pending h =
      decided-erase k pending (decided-drop_ids ids (erase k pending) h)

  -- What a section finds approved was approved before it.
  Section-decision :
      {d e : Desk}
      → Section d e
      → audit_decision rid e.proxy ≡ some true
      → audit_decision rid d.proxy ≡ some true
  unfolding begin not_sent message_sent end_wait settle_wait sweep cleanup count_approval
      drop_pending drop_message audit_decision
  Section-decision (begun name d) h = ground (
    arith,
    lookup-insert (audit_id d.audit_pending_seq) rid
        (record { name = name; approved = none; event = false }) d.proxy.audit_approval_pending,
  )
  Section-decision (not_asked k d) h = decided-erase k d.proxy.audit_approval_pending h
  Section-decision (sent m k d) h = h
  Section-decision (ended woken k m ids d) h = decided-erase k d.proxy.audit_approval_pending h
  Section-decision (ended timed_out k m ids d) h = decided-erase k d.proxy.audit_approval_pending h
  Section-decision (ended broken k m ids d) h = decided-erase k d.proxy.audit_approval_pending h
  Section-decision (ended cancelled k m ids d) h = h
  Section-decision (swept d) h =
      decided-drop_ids (waiting d.proxy.audit_approval_pending) d.proxy.audit_approval_pending h
  Section-decision (cleaned ids d) h = decided-drop_ids ids d.proxy.audit_approval_pending h
  Section-decision (other d e same) h = ground (arith, same)

-- A run from a state, with the reactions and the states that they met.
pub data Run (start : Desk) : List (Reaction × Proxy) → Desk → Type 0 where
  here : Run start [] start
  section :
      {log : List (Reaction × Proxy)} {d e : Desk} → Run start log d → Section d e → Run start log e
  reacted :
      {log : List (Reaction × Proxy)} {d : Desk} (ev : Reaction)
      → Run start log d
      → Run start ((ev, d.proxy) ∷ log) (record d { proxy = (on_reaction ev d.proxy).0 })

Run-decision :
    (rid : Text) {start d : Desk} {log : List (Reaction × Proxy)}
    → audit_decision rid start.proxy ≢ some true
    → Run start log d
    → audit_decision rid d.proxy ≡ some true
    → Any (λ e. ApprovesCall rid e.0 e.1) log
Run-decision rid fresh here h = absurd (fresh h)
Run-decision rid fresh (section run s) h = Run-decision rid fresh run (Section-decision rid s h)
Run-decision rid fresh (reacted {d = d} ev run) h =
    elim (on_reaction-audit_decision rid ev d.proxy h) [
      | inl before ↦ inr (Run-decision rid fresh run before)
      | inr approves ↦ inl approves
    ]

-- Only a decision makes the result of a wait `approved`, and only if its event woke it.
verdict_at-approved :
    (rid : Text) (d : Desk) → verdict_at rid d ≡ approved → audit_decision rid d.proxy ≡ some true
unfolding verdict_at audit_decision
verdict_at-approved rid d h = ground arith

result-inj : (r q : Result) → some r ≡ some q → r ≡ q
result-inj r q h = ap (λ o. elim o [ none ↦ r | some x ↦ x ]) h

end_wait-approved :
    (w : Wake) (rid m : Text) (ids : List Text) (d : Desk)
    → (end_wait w rid m ids d).result ≡ some approved
    → audit_decision rid d.proxy ≡ some true
unfolding end_wait settle_wait
end_wait-approved woken rid m ids d h = verdict_at-approved rid d (result-inj _ approved h)
end_wait-approved timed_out rid m ids d h = absurd (cc)
end_wait-approved broken rid m ids d h = absurd (cc)
end_wait-approved cancelled rid m ids d h = absurd (cc)

begin-decision :
    (name : Text) (d : Desk)
    → audit_decision (audit_id d.audit_pending_seq) (begin name d).1.proxy ≢ some true
unfolding begin audit_decision
begin-decision name d h = ground (
  arith,
  lookup-insert_self (audit_id d.audit_pending_seq)
      (let e : AuditApproval = record { name = name; approved = none; event = false } in e)
      d.proxy.audit_approval_pending,
)

-- The state that the wait ends in.
abbrev pub at_wake : Awaits → Text → Text → Desk → Desk
at_wake a name m d =
    a.while_waiting
      (message_sent m (audit_id d.audit_pending_seq) (a.while_sending (begin name d).1))

pub Asked-cases :
    (q : Asked) → ((m : Text) × (q ≡ message m)) ⊎ ((q ≡ no_message) ⊎ (q ≡ ask_cancelled))
Asked-cases (message m) = inl (m, refl)
Asked-cases no_message = inr (inl refl)
Asked-cases ask_cancelled = inr (inr refl)

module _ (a : Awaits) (name : Text) (ids : List Text) (d : Desk) where
  -- What the request tracks from the entry on.
  abbrev pub tracked : List Text
  tracked = ids ++ (audit_id d.audit_pending_seq ∷ [])

  pub request_unsent :
      a.asked ≡ no_message
      → request_audit_approval a name ids d
        ≡ unsent (audit_id d.audit_pending_seq) tracked (a.while_sending (begin name d).1)
  unfolding request_audit_approval begin
  request_unsent e = rw e refl

  pub request_cancelled :
      a.asked ≡ ask_cancelled
      → request_audit_approval a name ids d
        ≡ cancelled_at tracked (a.while_sending (begin name d).1)
  unfolding request_audit_approval begin
  request_cancelled e = rw e refl

  pub request_sent :
      (m : Text)
      → a.asked ≡ message m
      → request_audit_approval a name ids d
        ≡ end_wait a.wake (audit_id d.audit_pending_seq) m tracked (at_wake a name m d)
  unfolding request_audit_approval begin
  request_sent m e = rw e refl

failed_not_approved : some failed ≢ some approved
failed_not_approved h = cc

none_not_approved : none ≢ some approved
none_not_approved h = cc

-- Where what happens from the entry of an approval to the end of its wait is a run of the sections of
-- all handlers and of reactions, `_request_audit_approval` answers `approved` only if a reaction of
-- the run approved the call: a ✅ that was heard, on the message about this call, by a sender on the
-- white list, if there is one.
pub request_audit_approval-ApprovesCall :
    (a : Awaits) (name : Text) (ids : List Text) (d : Desk) (log : List (Reaction × Proxy))
    → ((m : Text) → a.asked ≡ message m → Run (begin name d).1 log (at_wake a name m d))
    → (request_audit_approval a name ids d).result ≡ some approved
    → Any (λ e. ApprovesCall (audit_id d.audit_pending_seq) e.0 e.1) log
request_audit_approval-ApprovesCall a name ids d log runs h = elim (Asked-cases a.asked) [
  | inl (m, e) ↦ Run-decision (audit_id d.audit_pending_seq) (begin-decision name d) (runs m e) (
      end_wait-approved a.wake (audit_id d.audit_pending_seq) m (tracked a name ids d)
        (at_wake a name m d) (sym (ap (λ r. r.result) (request_sent a name ids d m e)) ∙ h))
  | inr (inl e) ↦
      absurd (failed_not_approved (sym (ap (λ r. r.result) (request_unsent a name ids d e)) ∙ h))
  | inr (inr e) ↦
      absurd (none_not_approved (sym (ap (λ r. r.result) (request_cancelled a name ids d e)) ∙ h))
]
