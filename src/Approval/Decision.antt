-- ===== src/Approval/Decision.antt =====
-- What is decided about an audited call in a state, and what a reaction changes of it.
use credential_proxy.Prelude.{
  ◌≡◌, ◌⊎◌, inl, inr, Bool, true, Option, none, some, [], Text, Dict, lookup, lookup-insert, Any,
  text_eq, text_eq_iff, Bool-cases, Option-cases, arith,
}
use credential_proxy.Reactions.{reaction_approve}
use credential_proxy.Proxy.{Proxy, Request, drop_unlock}
use credential_proxy.Matrix.{
  Reaction, is_heard, may_approve, react_unlock, react_audit, react_request, react_approval, react,
  open_request, asks_unlock, lookup_truthy, on_reaction,
}
use credential_proxy.Credential.Decision.{may_approve_listed}

-- The decision on an approval.
unfoldable pub audit_decision : Text → Proxy → Option Bool
audit_decision rid p = elim (lookup rid p.audit_approval_pending) [
  | none ↦ none
  | some ap ↦ ap.approved
]

-- The reaction approves the call: a ✅ that is heard, on its message, by somebody who may.
abbrev pub ApprovesCall : Text → Reaction → Proxy → Type 0
ApprovesCall rid ev p =
    (is_heard ev p ≡ true)
    × (ev.key ≡ reaction_approve)
    × (lookup ev.event_id p.audit_approval_msgs ≡ some rid)
    × ((p.approval_whitelist ≡ []) ⊎ Any (λ w. w ≡ ev.sender) p.approval_whitelist)

-- Where the table is the same, so is the decision.
pub audit_decision_same :
    (rid : Text) (p q : Proxy)
    → q.audit_approval_pending ≡ p.audit_approval_pending
    → audit_decision rid q ≡ some true
    → audit_decision rid p ≡ some true
unfolding audit_decision
audit_decision_same rid p q e h = ground (arith, e)

module _ (rid : Text) where
  react_audit-decision :
      (sender key a_id : Text) (p : Proxy)
      → audit_decision rid (react_audit sender key a_id p) ≡ some true
      → (audit_decision rid p ≡ some true)
        ⊎ ((may_approve sender p ≡ true) × (rid ≡ a_id) × (key ≡ reaction_approve))
  unfolding react_audit audit_decision
  react_audit-decision sender key a_id p h = elim (Bool-cases (may_approve sender p)) [
    | inr e ↦ inl (ground arith)
    | inl e ↦ elim (Option-cases (lookup a_id p.audit_approval_pending)) [
      | inl n ↦ inl (ground arith)
      | inr (w, s) ↦ elim (Option-cases w.approved) [
        | inr (b, f) ↦ inl (ground arith)
        | inl f ↦ elim (Bool-cases (text_eq rid a_id)) [
          | inr d ↦ inl (
              ground (
                arith,
                lookup-insert a_id rid
                    (record w { approved = some (text_eq key reaction_approve); event = true })
                    p.audit_approval_pending,
              ))
          | inl d ↦ inr (
            e,
            (text_eq_iff rid a_id).0 d,
            (text_eq_iff key reaction_approve).0 (
                ground (
                  arith,
                  lookup-insert a_id rid
                      (record w { approved = some (text_eq key reaction_approve); event = true })
                      p.audit_approval_pending,
                )),
          )
        ]
      ]
    ]
  ]

  react_request-audit :
      (sender key k : Text) (r : Request) (p : Proxy)
      → (react_request sender key k r p).audit_approval_pending ≡ p.audit_approval_pending
  unfolding react_request
  react_request-audit sender key k r p = ground arith

  lookup_truthy_inv :
      (k x : Text) (d : Dict Text) → lookup_truthy k d ≡ some x → lookup k d ≡ some x
  lookup_truthy_inv k x d h = ground arith

  react_approval-audit_decision :
      (sender event_id key : Text) (p : Proxy)
      → audit_decision rid (react_approval sender event_id key p) ≡ some true
      → (audit_decision rid p ≡ some true)
        ⊎ ((may_approve sender p ≡ true)
            × (lookup event_id p.audit_approval_msgs ≡ some rid)
            × (key ≡ reaction_approve))
  unfolding react_approval
  react_approval-audit_decision sender event_id key p h =
      elim (Option-cases (open_request event_id p)) [
        | inr ((k, r), e) ↦ inl (
            audit_decision_same rid p (react_request sender key k r p)
              (react_request-audit sender key k r p) (rw (e, react_approval) at h))
        | inl e ↦ elim (Option-cases (lookup_truthy event_id p.audit_approval_msgs)) [
          | inl f ↦ inl (rw (e, f, react_approval) at h)
          | inr (a_id, f) ↦
              elim (react_audit-decision sender key a_id p (rw (e, f, react_approval) at h)) [
                | inl before ↦ inl before
                | inr (on, same, approve) ↦
                    inr (
                      on,
                      rw same (lookup_truthy_inv event_id a_id p.audit_approval_msgs f),
                      approve,
                    )
              ]
        ]
      ]

  react_unlock-audit :
      (key : Text) (p : Proxy)
      → (react_unlock key p).0.audit_approval_pending ≡ p.audit_approval_pending
  unfolding react_unlock drop_unlock
  react_unlock-audit key p = ground arith

  react-audit_decision :
      (sender event_id key : Text) (p : Proxy)
      → audit_decision rid (react sender event_id key p).0 ≡ some true
      → (audit_decision rid p ≡ some true)
        ⊎ ((may_approve sender p ≡ true)
            × (lookup event_id p.audit_approval_msgs ≡ some rid)
            × (key ≡ reaction_approve))
  unfolding react audit_decision
  react-audit_decision sender event_id key p h = elim (Bool-cases (asks_unlock event_id p)) [
    | inl e ↦
        inl (
          audit_decision_same rid p (react_unlock key p).0 (react_unlock-audit key p)
            (ground arith))
    | inr e ↦ elim (Option-cases (lookup_truthy event_id p.registry.registration_msgs)) [
      | inr (reg_id, f) ↦ inl (ground arith)
      | inl f ↦ elim (Option-cases (lookup_truthy event_id p.registry.hash_change_msgs)) [
        | inr (hc_id, g) ↦ inl (ground arith)
        | inl g ↦ react_approval-audit_decision sender event_id key p (ground arith)
      ]
    ]
  ]

  pub on_reaction-audit_decision :
      (ev : Reaction) (p : Proxy)
      → audit_decision rid (on_reaction ev p).0 ≡ some true
      → (audit_decision rid p ≡ some true) ⊎ ApprovesCall rid ev p
  unfolding on_reaction
  on_reaction-audit_decision ev p h = elim (Bool-cases (is_heard ev p)) [
    | inr e ↦ inl (rw (e, on_reaction) at h)
    | inl e ↦
        elim (react-audit_decision ev.sender ev.event_id ev.key p (rw (e, on_reaction) at h)) [
          | inl before ↦ inl before
          | inr (on, asks, approve) ↦ inr (e, approve, asks, may_approve_listed ev.sender p on)
        ]
  ]
