-- ===== src/Matrix/Once.antt =====
-- The first decision stands: `on_reaction` of _matrix.py accepts no second one.
use credential_proxy.Prelude.{
  ◌≡◌, refl, Bool, true, none, some, Text, text_eq, text_eq_iff, lookup, lookup-insert, Bool-cases,
  Option-cases, inl, inr, arith,
}
use credential_proxy.Reactions.{reaction_approve}
use credential_proxy.Registry.{PendingRegistration, PendingChange}
use credential_proxy.Proxy.{Proxy, Request, AuditApproval}
use credential_proxy.Matrix.{
  Reaction, is_heard, react, react_unlock, react_registration, react_hash_change, react_approval,
  react_request, react_audit, open_request, on_reaction, asks_unlock, lookup_truthy,
}

-- What was decided in `p` is decided the same in `q`.
pub record Stands (p q : Proxy) : Type 0 where
  pub request :
      (k : Text) (r : Request) (b : Bool)
      → lookup k p.pending_requests ≡ some r
      → r.approved ≡ some b
      → lookup k q.pending_requests ≡ some r
  pub registration :
      (k : Text) (w : PendingRegistration) (x : Text)
      → lookup k p.registry.registration_pending ≡ some w
      → w.approved ≡ some x
      → lookup k q.registry.registration_pending ≡ some w
  pub change :
      (k : Text) (w : PendingChange) (x : Text)
      → lookup k p.registry.hash_change_pending ≡ some w
      → w.result ≡ some x
      → lookup k q.registry.hash_change_pending ≡ some w
  pub audit :
      (k : Text) (w : AuditApproval) (b : Bool)
      → lookup k p.audit_approval_pending ≡ some w
      → w.approved ≡ some b
      → lookup k q.audit_approval_pending ≡ some w

-- Where the four tables are the same, nothing changed.
Stands-same :
    {p q : Proxy}
    → q.pending_requests ≡ p.pending_requests
    → q.registry ≡ p.registry
    → q.audit_approval_pending ≡ p.audit_approval_pending
    → Stands p q
Stands-same e f g = record {
  request = λ k r b h d. rw e h;
  registration = λ k w x h d. rw f h;
  change = λ k w x h d. rw f h;
  audit = λ k w b h d. rw g h;
}

react_unlock-Stands : (key : Text) (p : Proxy) → Stands p (react_unlock key p).0
unfolding react_unlock
react_unlock-Stands key p = Stands-same (ground arith) (ground arith) (ground arith)

react_registration-Stands :
    (reg_id key : Text) (p : Proxy)
    → Stands p (record p { registry = react_registration reg_id key p.registry })
unfolding react_registration
react_registration-Stands reg_id key p =
    elim (Option-cases (lookup reg_id p.registry.registration_pending)) [
      | inl e ↦ Stands-same refl (ground arith) refl
      | inr (v, e) ↦ elim (Option-cases v.approved) [
        | inr (y, f) ↦ Stands-same refl (ground arith) refl
        | inl f ↦ record {
          request = λ k r b h d. h;
          registration = λ k w x h d. ground (
            arith,
            lookup-insert reg_id k (record v { approved = some key; event = true })
                p.registry.registration_pending,
            text_eq_iff k reg_id,
          );
          change = λ k w x h d. ground arith;
          audit = λ k w b h d. h;
        }
      ]
    ]

react_hash_change-Stands :
    (hc_id key : Text) (p : Proxy)
    → Stands p (record p { registry = (react_hash_change hc_id key p.registry).0 })
unfolding react_hash_change
react_hash_change-Stands hc_id key p =
    elim (Option-cases (lookup hc_id p.registry.hash_change_pending)) [
      | inl e ↦ Stands-same refl (ground arith) refl
      | inr (v, e) ↦ elim (Option-cases v.result) [
        | inr (y, f) ↦ Stands-same refl (ground arith) refl
        | inl f ↦ record {
          request = λ k r b h d. h;
          registration = λ k w x h d. ground arith;
          change = λ k w x h d. ground (
            arith,
            lookup-insert hc_id k (record v { result = some key; event = true })
                p.registry.hash_change_pending,
            text_eq_iff k hc_id,
          );
          audit = λ k w b h d. h;
        }
      ]
    ]

open_request_undecided :
    (event_id req_id : Text) (r : Request) (p : Proxy)
    → open_request event_id p ≡ some (req_id, r)
    → (lookup req_id p.pending_requests ≡ some r) × (r.approved ≡ none)
unfolding open_request
open_request_undecided event_id req_id r p h = ground arith

react_request-Stands :
    (sender key req_id : Text) (r : Request) (p : Proxy)
    → lookup req_id p.pending_requests ≡ some r
    → r.approved ≡ none
    → Stands p (react_request sender key req_id r p)
unfolding react_request
react_request-Stands sender key req_id r p e f = record {
  request = λ k x b h d. ground (
    arith,
    lookup-insert req_id k (record r { approved = some (text_eq key reaction_approve) })
        p.pending_requests,
    text_eq_iff k req_id,
  );
  registration = λ k w x h d. ground arith;
  change = λ k w x h d. ground arith;
  audit = λ k w b h d. ground arith;
}

react_audit-Stands : (sender key a_id : Text) (p : Proxy) → Stands p (react_audit sender key a_id p)
unfolding react_audit
react_audit-Stands sender key a_id p = elim (Option-cases (lookup a_id p.audit_approval_pending)) [
  | inl e ↦ Stands-same (ground arith) (ground arith) (ground arith)
  | inr (v, e) ↦ record {
    request = λ k r b h d. ground arith;
    registration = λ k w x h d. ground arith;
    change = λ k w x h d. ground arith;
    audit = λ k w b h d. ground (
      arith,
      lookup-insert a_id k
          (record v { approved = some (text_eq key reaction_approve); event = true })
          p.audit_approval_pending,
      text_eq_iff k a_id,
    );
  }
]

react_approval-Stands :
    (sender event_id key : Text) (p : Proxy) → Stands p (react_approval sender event_id key p)
unfolding react_approval
react_approval-Stands sender event_id key p = elim (Option-cases (open_request event_id p)) [
  | inr ((req_id, r), e) ↦
      let (held, undecided) = open_request_undecided event_id req_id r p e in
      rw (e, react_approval) (react_request-Stands sender key req_id r p held undecided)
  | inl e ↦ elim (Option-cases (lookup_truthy event_id p.audit_approval_msgs)) [
    | inl f ↦ rw (e, react_approval) (rw (f, react_approval) (Stands-same refl refl refl))
    | inr (a_id, f) ↦
        rw (e, react_approval) (rw (f, react_approval) (react_audit-Stands sender key a_id p))
  ]
]

react-Stands : (sender event_id key : Text) (p : Proxy) → Stands p (react sender event_id key p).0
unfolding react
react-Stands sender event_id key p = elim (Bool-cases (asks_unlock event_id p)) [
  | inl e ↦ rw e (react_unlock-Stands key p)
  | inr e ↦ elim (Option-cases (lookup_truthy event_id p.registry.registration_msgs)) [
    | inr (r, f) ↦ rw e (rw (f, react) (react_registration-Stands r key p))
    | inl f ↦ elim (Option-cases (lookup_truthy event_id p.registry.hash_change_msgs)) [
      | inr (k, g) ↦ rw e (rw (f, react) (rw (g, react) (react_hash_change-Stands k key p)))
      | inl g ↦ rw e (rw (f, react) (rw (g, react) (react_approval-Stands sender event_id key p)))
    ]
  ]
]

-- A reaction leaves every decision that was made before as it is: the first one counts, for
-- credentials, registrations, changed hashes and audited calls alike.
pub on_reaction-Stands : (ev : Reaction) (p : Proxy) → Stands p (on_reaction ev p).0
unfolding on_reaction
on_reaction-Stands ev p = elim (Bool-cases (is_heard ev p)) [
  | inl e ↦ rw (e, on_reaction) (react-Stands ev.sender ev.event_id ev.key p)
  | inr e ↦ rw (e, on_reaction) (Stands-same refl refl refl)
]
