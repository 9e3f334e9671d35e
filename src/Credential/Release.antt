-- ===== src/Credential/Release.antt =====
-- No request is approved but by a reaction: every section of the handlers that touches the
-- pending requests, over any run.
use credential_proxy.Prelude.{
  ℕ, ◌≡◌, ◌≢◌, Bool, true, Option, none, some, List, [], ◌∷◌, Text, Dict, Any, strip, codes, ◌++◌,
  insert, lookup-insert, lookup-erase, inl, inr, arith,
}
use credential_proxy.Registry.{Registry}
use credential_proxy.Token.{Tokens}
use credential_proxy.Proxy.{Proxy, AuditApproval, drop_unlock}
use credential_proxy.Matrix.{Message, Reaction, on_reaction, on_text}
use credential_proxy.Unlock.{do_unlock, auto_unlock_start, auto_unlock_end}
use credential_proxy.Credential.{
  CredentialQuery, mark_notified, enter, enqueue, cleanup_request, decision, approval_timeout,
  finish, enqueue_revoke,
}
use credential_proxy.Credential.Decision.{
  Approves, drop_unlock-pending, on_reaction-decision, on_text-decision,
}

-- A section of any handler but the reactions'. Those that leave the requests alone may do
-- anything to the tables that they are about.
pub data Section : Proxy → Proxy → Type 0 where
  text : (m : Message) (p : Proxy) → Section p (on_text m p)
  unlock_ended : (g : ℕ) (pw : Option Text) (p : Proxy) → Section p (do_unlock g pw p)
  auto_started : (p : Proxy) → Section p (auto_unlock_start p).0
  auto_ended : (g e : ℕ) (pw : Option Text) (p : Proxy) → Section p (auto_unlock_end g e pw p).0
  notified : (k : Text) (p : Proxy) → Section p (mark_notified k p).0
  entered : (now : ℕ) (p : Proxy) → Section p (enter now p).0
  unlock_asked : (m : Text) (p : Proxy) → Section p (record p { unlock_msg_id = some m })
  unlock_dropped : (p : Proxy) → Section p (drop_unlock p)
  queued : (k : Text) (q : CredentialQuery) (p : Proxy) → Section p (enqueue k q p).0
  queued_revoke : (k m name : Text) (p : Proxy) → Section p (enqueue_revoke k m name p)
  sent :
      (m k : Text) (p : Proxy) → Section p (record p { approval_msgs = insert m k p.approval_msgs })
  late : (k : Text) (p : Proxy) → Section p (approval_timeout k p).0
  finished : (k : Text) (p : Proxy) → Section p (finish k p).0
  cleaned : (k : Text) (p : Proxy) → Section p (cleanup_request k p)
  registry : (r : Registry) (p : Proxy) → Section p (record p { registry = r })
  tokens : (t : Tokens) (p : Proxy) → Section p (record p { tokens = t })
  cached : (b : Bool) (p : Proxy) → Section p (record p { kp_cached = b })
  audit :
      (ms : Dict Text) (as_ : Dict AuditApproval) (p : Proxy)
      → Section p (record p { audit_approval_msgs = ms; audit_approval_pending = as_ })

module _ (rid : Text) where
  cleanup_request-decision :
      (k : Text) (p : Proxy)
      → decision rid (cleanup_request k p) ≡ some true
      → decision rid p ≡ some true
  unfolding cleanup_request
  cleanup_request-decision k p h = ground (arith, lookup-erase k rid p.pending_requests)

  enqueue-decision :
      (k : Text) (q : CredentialQuery) (p : Proxy)
      → decision rid (enqueue k q p).0 ≡ some true
      → decision rid p ≡ some true
  unfolding enqueue
  enqueue-decision k q p h = ground (
    arith,
    lookup-insert k rid
        (record {
          entry = strip q.entry;
          field = some (strip q.field);
          use_token = q.use_token;
          approved = none;
          event = p.next_event;
        })
        p.pending_requests,
  )

  enqueue_revoke-decision :
      (k m name : Text) (p : Proxy)
      → decision rid (enqueue_revoke k m name p) ≡ some true
      → decision rid p ≡ some true
  unfolding enqueue_revoke
  enqueue_revoke-decision k m name p h = ground (
    arith,
    lookup-insert k rid
        (record {
          entry = codes "revoke:" ++ name;
          field = none;
          use_token = true;
          approved = none;
          event = p.next_event;
        })
        p.pending_requests,
  )

  Section-decision :
      {p q : Proxy} → Section p q → decision rid q ≡ some true → decision rid p ≡ some true
  unfolding do_unlock auto_unlock_start auto_unlock_end mark_notified enter approval_timeout finish
  Section-decision (text m p) h = on_text-decision rid m p h
  Section-decision (unlock_ended g none p) h = ground (arith, drop_unlock-pending rid)
  Section-decision (unlock_ended g (some pw) p) h = ground arith
  Section-decision (auto_started p) h = ground arith
  Section-decision (auto_ended g e none p) h = ground arith
  Section-decision (auto_ended g e (some pw) p) h = ground arith
  Section-decision (notified k p) h = ground arith
  Section-decision (entered now p) h = ground arith
  Section-decision (unlock_asked m p) h = h
  Section-decision (unlock_dropped p) h = ground (arith, drop_unlock-pending rid p)
  Section-decision (queued k q p) h = enqueue-decision k q p h
  Section-decision (queued_revoke k m name p) h = enqueue_revoke-decision k m name p h
  Section-decision (sent m k p) h = h
  Section-decision (late k p) h = ground (arith, cleanup_request-decision k p)
  Section-decision (finished k p) h = cleanup_request-decision k p h
  Section-decision (cleaned k p) h = cleanup_request-decision k p h
  Section-decision (registry r p) h = h
  Section-decision (tokens t p) h = h
  Section-decision (cached b p) h = h
  Section-decision (audit ms as_ p) h = h

-- A run from a state in which no request is approved, with the reactions and the states that
-- they met.
pub data Run (start : Proxy) : List (Reaction × Proxy) → Proxy → Type 0 where
  here : Run start [] start
  section :
      {log : List (Reaction × Proxy)} {p q : Proxy}
      → Run start log p
      → Section p q
      → Run start log q
  reacted :
      {log : List (Reaction × Proxy)} {p : Proxy} (ev : Reaction)
      → Run start log p
      → Run start ((ev, p) ∷ log) (on_reaction ev p).0

-- In any run from a state in which the request is not approved, through the sections of all
-- handlers in any order, a request that is found approved was approved by a reaction of the run: a
-- ✅ that was heard, on a message that asked for this request, by a sender on the white list, if
-- there is one.
pub Run-Approves :
    (rid : Text) {start p : Proxy} {log : List (Reaction × Proxy)}
    → decision rid start ≢ some true
    → Run start log p
    → decision rid p ≡ some true
    → Any (λ e. Approves rid e.0 e.1) log
Run-Approves rid fresh here h = absurd (fresh h)
Run-Approves rid fresh (section run s) h = Run-Approves rid fresh run (Section-decision rid s h)
Run-Approves rid fresh (reacted {p = p} ev run) h = elim (on_reaction-decision rid ev p h) [
  | inl before ↦ inr (Run-Approves rid fresh run before)
  | inr approves ↦ inl approves
]
