-- ===== src/Audit/Log.antt =====
-- `_audit_log_event` of _audit.py: the ring of the last events and the count of failed writes.
use credential_proxy.Prelude.{
  ℕ, ◌+◌, ◌-◌, ◌≤◌, ◌≡◌, refl, sym, ap, ◌∙◌, Bool, not, List, [], ◌∷◌, ◌++◌, map, Text, ltb, leb,
  length, drop, if◌then◌else◌, arith, length-append, last_of, last_of-append, length-drop,
  Bool-cases, inl, inr, if_both,
}
use mathlib.Core.List.{append-nil, append_assoc}
use credential_proxy.Audit.Policy.{Verdict, allow, deny}

-- One record of the log, with the summary already redacted.
pub record Event : Type 0 where
  pub tool : Text
  pub verdict : Verdict
  pub rule : Text
  pub summary : Text
  pub note : Text

pub record AuditLog : Type 0 where
  pub ring : List Event
  pub ring_max : ℕ
  pub fail_count : ℕ
  pub fail_limit : ℕ
  pub has_path : Bool

-- `ring.append(record)` and `del ring[: len(ring) - ring_max]` when it is too long.
unfoldable pub push_ring : ℕ → Event → List Event → List Event
push_ring ring_max e ring =
    let longer = ring ++ (e ∷ []) in
    if ltb ring_max (length longer) then drop (length longer - ring_max) longer else longer

-- The count after a failed write.
unfoldable pub count_failure : Verdict → ℕ → ℕ → ℕ
count_failure deny fail_limit n = n + 1
count_failure allow fail_limit n = if leb fail_limit (n + 1) then 0 else n + 1

-- `_audit_log_event`; `ok` is whether the record could be written.
unfoldable pub audit_log_event : Event → Bool → AuditLog → AuditLog
unfolding push_ring count_failure
audit_log_event e ok log =
    let pushed = record log { ring = push_ring log.ring_max e log.ring } in
    if not log.has_path
    then pushed
    else if ok
    then record pushed { fail_count = 0 }
    else record pushed { fail_count = count_failure e.verdict log.fail_limit log.fail_count }

-- Any number of events, with the fate of each write.
unfoldable pub audit_log_events : List (Event × Bool) → AuditLog → AuditLog
unfolding audit_log_event
audit_log_events [] log = log
audit_log_events ((e, ok) ∷ es) log = audit_log_events es (audit_log_event e ok log)

push_ring-last_of :
    (n : ℕ) (e : Event) (ring : List Event) → push_ring n e ring ≡ last_of n (ring ++ (e ∷ []))
unfolding push_ring
push_ring-last_of n e ring = elim (Bool-cases (ltb n (length (ring ++ (e ∷ []))))) [
  | inl t ↦ rw t refl
  | inr t ↦ rw t (
      ap (λ k. drop k (ring ++ (e ∷ [])))
        (let z : 0 ≡ length (ring ++ (e ∷ [])) - n = ground arith in z))
]

audit_log_event-ring :
    (e : Event) (ok : Bool) (log : AuditLog)
    → ((audit_log_event e ok log).ring ≡ push_ring log.ring_max e log.ring)
      × ((audit_log_event e ok log).ring_max ≡ log.ring_max)
unfolding audit_log_event
audit_log_event-ring e ok log =
    if_both P (not log.has_path) (refl, refl) (if_both P ok (refl, refl) (refl, refl))
  where
    P : AuditLog → Type 0
    P l = (l.ring ≡ push_ring log.ring_max e log.ring) × (l.ring_max ≡ log.ring_max)

abbrev pub events_of : List (Event × Bool) → List Event
events_of = map (λ x. x.0)

-- The ring of audit events holds the last `ring_max` of all events logged, in their order,
-- whatever became of the writes to the file.
pub audit_log_events-last_of :
    (es : List (Event × Bool)) (log : AuditLog)
    → length log.ring ≤ log.ring_max
    → (audit_log_events es log).ring ≡ last_of log.ring_max (log.ring ++ events_of es)
unfolding audit_log_events
audit_log_events-last_of [] log h =
    sym (append-nil log.ring)
    ∙ ap (λ k. drop k (log.ring ++ []))
        (let z : 0 ≡ length (log.ring ++ []) - log.ring_max =
            omega (arith, length-append log.ring [], h) in
          z)
audit_log_events-last_of ((e, ok) ∷ es) log h =
    let (one, same) = audit_log_event-ring e ok log in
    let next = audit_log_event e ok log in
    let m = log.ring_max in
    let ring : next.ring ≡ last_of m (log.ring ++ (e ∷ [])) =
      one ∙ push_ring-last_of m e log.ring in
    let fits : length next.ring ≤ next.ring_max = omega (
      arith,
      ap length ring,
      same,
      length-drop (length (log.ring ++ (e ∷ [])) - m) (log.ring ++ (e ∷ [])),
    ) in
    audit_log_events-last_of es next fits
    ∙ ap (λ n. last_of n (next.ring ++ events_of es)) same
    ∙ ap (λ r. last_of m (r ++ events_of es)) ring
    ∙ last_of-append m (log.ring ++ (e ∷ [])) (events_of es)
    ∙ ap (last_of m) (append_assoc log.ring (e ∷ []) (events_of es))
