-- ===== src/Credential/Decision.antt =====
-- Which reactions of _matrix.py, and which commands, touch the decision on a request.
use credential_proxy.Prelude.{
  any-text_eq, ◌≡◌, refl, true, some, List, [], ◌∷◌, Text, any, Any, text_eq, text_eq_iff, lookup,
  lookup-insert, Bool-cases, Option-cases, inl, inr, ◌⊎◌, arith,
}
use credential_proxy.Reactions.{reaction_approve}
use credential_proxy.Proxy.{Proxy, Request, drop_unlock, wake_unlock, set_event}
use credential_proxy.Matrix.{
  Message, Reaction, is_heard, may_approve, open_request, react_request, react_approval,
  react_audit, react, react_unlock, on_reaction, on_text, asks_unlock, lookup_truthy, wake_requests,
}
use credential_proxy.Credential.{decision}

-- A reaction that approves the request: it is heard, it is ✅ on a message that asks for the
-- request, and its sender is on the white list, if there is one.
abbrev pub Approves : Text → Reaction → Proxy → Type 0
Approves rid ev p =
    (is_heard ev p ≡ true)
    × (ev.key ≡ reaction_approve)
    × (lookup ev.event_id p.approval_msgs ≡ some rid)
    × ((p.approval_whitelist ≡ []) ⊎ Any (λ w. w ≡ ev.sender) p.approval_whitelist)

pub may_approve_listed :
    (sender : Text) (p : Proxy)
    → may_approve sender p ≡ true
    → (p.approval_whitelist ≡ []) ⊎ Any (λ w. w ≡ sender) p.approval_whitelist
unfolding may_approve
may_approve_listed sender p h = go p.approval_whitelist h
  where
    go :
        (ws : List Text)
        → elim ws [ [] ↦ true | w ∷ ws' ↦ any (text_eq sender) (w ∷ ws') ] ≡ true
        → (ws ≡ []) ⊎ Any (λ w. w ≡ sender) ws
    go [] h = inl refl
    go (w ∷ ws) h = inr (any-text_eq sender (w ∷ ws) h)

module _ (rid : Text) where
  pub react_request-decision :
      (sender key req_id : Text) (r : Request) (p : Proxy)
      → decision rid (react_request sender key req_id r p) ≡ some true
      → (decision rid p ≡ some true)
        ⊎ ((may_approve sender p ≡ true) × (req_id ≡ rid) × (key ≡ reaction_approve))
  unfolding react_request
  react_request-decision sender key req_id r p h = ground (
    arith,
    lookup-insert req_id rid (record r { approved = some (text_eq key reaction_approve) })
        p.pending_requests,
    text_eq_iff rid req_id,
    text_eq_iff key reaction_approve,
  )

  pub open_request_inv :
      (event_id req_id : Text) (r : Request) (p : Proxy)
      → open_request event_id p ≡ some (req_id, r)
      → lookup event_id p.approval_msgs ≡ some req_id
  unfolding open_request
  open_request_inv event_id req_id r p h = ground arith

  pub react_audit-pending :
      (sender key a_id : Text) (p : Proxy)
      → (react_audit sender key a_id p).pending_requests ≡ p.pending_requests
  unfolding react_audit
  react_audit-pending sender key a_id p = ground arith

  pub react_approval-decision :
      (sender event_id key : Text) (p : Proxy)
      → decision rid (react_approval sender event_id key p) ≡ some true
      → (decision rid p ≡ some true)
        ⊎ ((may_approve sender p ≡ true)
            × (lookup event_id p.approval_msgs ≡ some rid)
            × (key ≡ reaction_approve))
  unfolding react_approval
  react_approval-decision sender event_id key p h = elim (Option-cases (open_request event_id p)) [
    | inr ((req_id, r), e) ↦
        elim (react_request-decision sender key req_id r p (rw (e, react_approval) at h)) [
          | inl before ↦ inl before
          | inr (on, same, approve) ↦
              inr (on, open_request_inv event_id rid r p (rw same at e), approve)
        ]
    | inl e ↦ inl (ground (arith, react_audit-pending sender key))
  ]

  pub drop_unlock-pending : (p : Proxy) → (drop_unlock p).pending_requests ≡ p.pending_requests
  unfolding drop_unlock
  drop_unlock-pending p = ground arith

  pub wake_unlock-pending : (p : Proxy) → (wake_unlock p).pending_requests ≡ p.pending_requests
  unfolding wake_unlock
  wake_unlock-pending p = ground arith

  pub react_unlock-pending :
      (key : Text) (p : Proxy) → (react_unlock key p).0.pending_requests ≡ p.pending_requests
  unfolding react_unlock
  react_unlock-pending key p = ground arith

  pub react-decision :
      (sender event_id key : Text) (p : Proxy)
      → decision rid (react sender event_id key p).0 ≡ some true
      → (decision rid p ≡ some true)
        ⊎ ((may_approve sender p ≡ true)
            × (lookup event_id p.approval_msgs ≡ some rid)
            × (key ≡ reaction_approve))
  unfolding react
  react-decision sender event_id key p h = elim (Bool-cases (asks_unlock event_id p)) [
    | inl e ↦ inl (ground (arith, react_unlock-pending key p))
    | inr e ↦ elim (Option-cases (lookup_truthy event_id p.registry.registration_msgs)) [
      | inr (reg_id, f) ↦ inl (ground arith)
      | inl f ↦ elim (Option-cases (lookup_truthy event_id p.registry.hash_change_msgs)) [
        | inr (hc_id, g) ↦ inl (ground arith)
        | inl g ↦ react_approval-decision sender event_id key p (ground arith)
      ]
    ]
  ]

  pub on_reaction-decision :
      (ev : Reaction) (p : Proxy)
      → decision rid (on_reaction ev p).0 ≡ some true
      → (decision rid p ≡ some true) ⊎ Approves rid ev p
  unfolding on_reaction
  on_reaction-decision ev p h = elim (Bool-cases (is_heard ev p)) [
    | inr e ↦ inl (rw (e, on_reaction) at h)
    | inl e ↦ elim (react-decision ev.sender ev.event_id ev.key p (rw (e, on_reaction) at h)) [
      | inl before ↦ inl before
      | inr (on, asks, approve) ↦ inr (e, approve, asks, may_approve_listed ev.sender p on)
    ]
  ]

  pub wake_requests-pending :
      (rs : List (Text × Request)) (p : Proxy)
      → (wake_requests rs p).pending_requests ≡ p.pending_requests
  wake_requests-pending [] p = refl
  wake_requests-pending ((k, r) ∷ rs) p = wake_requests-pending rs (set_event r.event p)

  pub on_text-decision :
      (m : Message) (p : Proxy)
      → decision rid (on_text m p) ≡ some true
      → decision rid p ≡ some true
  unfolding on_text lookup
  on_text-decision m p h = ground arith
