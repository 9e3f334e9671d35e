-- ===== src/Approval/Cleared.antt =====
-- What `_request_audit_approval` of _llm.py leaves behind, and the cleanup of the request after it.
use credential_proxy.Prelude.{
  ◌≡◌, ◌≢◌, refl, sym, subst, ap, ◌∙◌, true, false, none, some, List, [], ◌∷◌, ◌++◌, Text, Dict,
  any, lookup, erase, lookup-erase, lookup-erase_self, text_eq, text_eq_refl, inl, inr, arith,
  Bool-cases,
}
use credential_proxy.Proxy.{AuditApproval}
use credential_proxy.Approval.{
  Desk, Result, Awaits, Asked, message, no_message, ask_cancelled, audit_id, begin, not_sent,
  settle_wait, end_wait, request_audit_approval, count_approval, drop_pending, drop_message, Wake,
  woken, timed_out, broken, cancelled, Ending, unsent, drop_ids, drop_msgs_of, cleanup,
}
use credential_proxy.Approval.Granted.{
  at_wake, Asked-cases, tracked, request_sent, request_unsent, request_cancelled,
}

-- The message, if one was sent, does not point to the approval.
abbrev pub PointsElsewhere : Text → Asked → Dict Text → Type 0
PointsElsewhere req_id (message m) msgs = lookup m msgs ≢ some req_id
PointsElsewhere req_id no_message msgs = Unit
PointsElsewhere req_id ask_cancelled msgs = Unit

-- Nothing of the approval is there.
abbrev pub IsCleared : Text → Asked → Desk → Type 0
IsCleared req_id asked d =
    (lookup req_id d.proxy.audit_approval_pending ≡ none)
    × PointsElsewhere req_id asked d.proxy.audit_approval_msgs

-- With a result nothing of the approval is left; without one, as the task was cancelled, the cleanup
-- at the end of the request leaves nothing of it, in any state that it meets.
pub data IsEnded (req_id : Text) (asked : Asked) : Ending → Type 0 where
  with_result :
      (d : Desk) (ids : List Text) (r : Result)
      → IsCleared req_id asked d
      → IsEnded req_id asked (record { desk = d; created_ids = ids; result = some r })
  by_cancellation :
      (d : Desk) (ids : List Text)
      → ((later : Desk) → IsCleared req_id asked (cleanup ids later))
      → IsEnded req_id asked (record { desk = d; created_ids = ids; result = none })

none_not_some : (k : Text) → none ≢ some k
none_not_some k e = cc

true_not_false : true ≢ false
true_not_false e = cc

settle_wait-IsEnded :
    (r : Result) (k m : Text) (ids : List Text) (d : Desk)
    → IsEnded k (message m) (settle_wait r k m ids d)
unfolding settle_wait count_approval drop_pending drop_message
settle_wait-IsEnded r k m ids d = with_result _ _ r (
  lookup-erase_self k d.proxy.audit_approval_pending,
  λ e. none_not_some k (sym (lookup-erase_self m d.proxy.audit_approval_msgs) ∙ e),
)

unsent-IsEnded : (k : Text) (ids : List Text) (d : Desk) → IsEnded k no_message (unsent k ids d)
unfolding not_sent count_approval drop_pending
unsent-IsEnded k ids d = with_result _ _ _ (lookup-erase_self k d.proxy.audit_approval_pending, tt)

-- What is not there stays away while ids are dropped, and an id that is dropped is not there.
drop_ids-none :
    (k : Text) (ids : List Text) (pending : Dict AuditApproval)
    → lookup k pending ≡ none
    → lookup k (drop_ids ids pending) ≡ none
unfolding drop_ids
drop_ids-none k [] pending h = h
drop_ids-none k (j ∷ ids) pending h =
    drop_ids-none k ids (erase j pending) (ground (arith, lookup-erase j k pending))

drop_ids_gone :
    (k : Text) (ids : List Text) (pending : Dict AuditApproval)
    → lookup k (drop_ids (ids ++ (k ∷ [])) pending) ≡ none
unfolding drop_ids
drop_ids_gone k [] pending = lookup-erase_self k pending
drop_ids_gone k (j ∷ ids) pending = drop_ids_gone k ids (erase j pending)

any-last : (k : Text) (ids : List Text) → any (text_eq k) (ids ++ (k ∷ [])) ≡ true
any-last k [] = rw text_eq_refl refl
any-last k (j ∷ ids) = ground (arith, any-last k ids)

same-some : (j k : Text) → some j ≡ some k → j ≡ k
same-some j k e = ap (λ o. elim o [ none ↦ j | some x ↦ x ]) e

-- No message is left that points to a dropped id.
drop_msgs_of_gone :
    (m k : Text) (ids : List Text) (msgs : Dict Text)
    → any (text_eq k) ids ≡ true
    → lookup m (drop_msgs_of ids msgs) ≢ some k
unfolding drop_msgs_of lookup
drop_msgs_of_gone m k ids [] h e = none_not_some k e
drop_msgs_of_gone m k ids ((n, j) ∷ msgs) h e = elim (Bool-cases (any (text_eq j) ids)) [
  | inl f ↦ drop_msgs_of_gone m k ids msgs h (rw f at e)
  | inr f ↦ elim (Bool-cases (text_eq m n)) [
    | inr g ↦ drop_msgs_of_gone m k ids msgs h (rw (f, g) at e)
    | inl g ↦
        let same : j ≡ k = same-some j k (rw (f, g) at e) in
        true_not_false (sym h ∙ ap (λ x. any (text_eq x) ids) (sym same) ∙ f)
  ]
]

cleanup-IsCleared :
    (k : Text) (asked : Asked) (ids : List Text) (later : Desk)
    → IsCleared k asked (cleanup (ids ++ (k ∷ [])) later)
unfolding cleanup
cleanup-IsCleared k (message m) ids later = (
  drop_ids_gone k ids later.proxy.audit_approval_pending,
  drop_msgs_of_gone m k (ids ++ (k ∷ [])) later.proxy.audit_approval_msgs (any-last k ids),
)
cleanup-IsCleared k no_message ids later =
    (drop_ids_gone k ids later.proxy.audit_approval_pending, tt)
cleanup-IsCleared k ask_cancelled ids later =
    (drop_ids_gone k ids later.proxy.audit_approval_pending, tt)

end_wait-IsEnded :
    (w : Wake) (k m : Text) (ids : List Text) (d : Desk)
    → IsEnded k (message m) (end_wait w k m (ids ++ (k ∷ [])) d)
unfolding end_wait
end_wait-IsEnded woken k m ids d = settle_wait-IsEnded _ k m (ids ++ (k ∷ [])) d
end_wait-IsEnded timed_out k m ids d = settle_wait-IsEnded _ k m (ids ++ (k ∷ [])) d
end_wait-IsEnded broken k m ids d = settle_wait-IsEnded _ k m (ids ++ (k ∷ [])) d
end_wait-IsEnded cancelled k m ids d =
    by_cancellation d (ids ++ (k ∷ [])) (cleanup-IsCleared k (message m) ids)

-- Whatever the awaits bring, `_request_audit_approval` ends in one of two ways. With a result it
-- leaves neither the entry of its call nor, if a message was sent, the pointer from this message.
-- Cancelled, it may leave them, but the request still tracks the id, and the cleanup at the end of
-- the request removes both, whatever state it meets.
pub request_audit_approval-IsEnded :
    (a : Awaits) (name : Text) (ids : List Text) (d : Desk)
    → IsEnded (audit_id d.audit_pending_seq) a.asked (request_audit_approval a name ids d)
request_audit_approval-IsEnded a name ids d = elim (Asked-cases a.asked) [
  | inl (m, e) ↦ for_asked (message m) e (
      subst (IsEnded k (message m)) (sym (request_sent a name ids d m e))
        (end_wait-IsEnded a.wake k m ids (at_wake a name m d)))
  | inr (inl e) ↦ for_asked no_message e (
      subst (IsEnded k no_message) (sym (request_unsent a name ids d e))
        (unsent-IsEnded k (tracked a name ids d) (a.while_sending (begin name d).1)))
  | inr (inr e) ↦ for_asked ask_cancelled e (
      subst (IsEnded k ask_cancelled) (sym (request_cancelled a name ids d e))
        (by_cancellation _ _ (cleanup-IsCleared k ask_cancelled ids)))
]
  where
    k : Text
    k = audit_id d.audit_pending_seq

    for_asked :
        (q : Asked)
        → a.asked ≡ q
        → IsEnded k q (request_audit_approval a name ids d)
        → IsEnded k a.asked (request_audit_approval a name ids d)
    for_asked q e h = subst (λ x. IsEnded k x (request_audit_approval a name ids d)) (sym e) h
