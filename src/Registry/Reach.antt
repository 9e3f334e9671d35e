-- ===== src/Registry/Reach.antt =====
-- Every registry that the operations of _registry.py build from an empty one.
use credential_proxy.Prelude.{
  ℕ, ◌≡◌, ◌≢◌, refl, true, false, Option, none, some, [], ◌∷◌, inl, inr, Text, Dict, text_eq,
  text_eq_iff, lookup, values, All, Any, Unique, insert-Unique, erase-Unique, All-insert, All-erase,
  All-lookup, erase_absent, lookup-erase, lookup-erase_self, Option-cases, arith, erase, subst,
}
use credential_proxy.Registry.Store.{Caller, Document, document}
use credential_proxy.Registry.{
  Registry, approved, name_exists, register_caller, activate_caller, revoke_caller, resolve_caller,
  resolve_hash_change, notify_hash_change, check_auto_rate_limit, check_auto_approve,
  in_grace_period, lookup_by_name,
}
use credential_proxy.Registry.Invariant.{
  IsConsistent, register_caller-IsConsistent, activate_caller-IsConsistent,
  revoke_caller-IsConsistent, resolve_hash_change-IsConsistent,
}
use credential_proxy.Registry.Approval.{check_auto_approve_sound}

-- One operation. A registration is made under a new id and a name that is not taken.
pub data Step (digest : Document → Text) : Registry → Registry → Type 0 where
  register :
      (c : Caller) (r : Registry)
      → lookup c.reg_id r.callers ≡ none
      → name_exists c.name r ≡ false
      → Step digest r (register_caller c r)
  activate : (at k : Text) (r : Registry) → Step digest r (activate_caller digest at k r)
  revoke : (at k : Text) (r : Registry) → Step digest r (revoke_caller digest at k r).0
  notify :
      (msg_id : Option Text) (c : Caller) (new_hash : Text) (r : Registry)
      → Step digest r (notify_hash_change msg_id c new_hash r)
  resolve :
      (at k new_hash reaction : Text) (r : Registry)
      → Step digest r (resolve_hash_change digest at k new_hash reaction r)
  limit :
      (now : ℕ) (name : Text) (r : Registry) → Step digest r (check_auto_rate_limit now name r).0

abbrev pub no_registry : Registry
no_registry = record {
  callers = [];
  by_path = [];
  by_name = [];
  registration_pending = [];
  registration_msgs = [];
  hash_change_pending = [];
  hash_change_msgs = [];
  auto_rate_limits = [];
  disk = none;
}

pub data Reach (digest : Document → Text) : Registry → Type 0 where
  start : Reach digest no_registry
  next : {r s : Registry} → Reach digest r → Step digest r s → Reach digest s

-- A registration stands under its id, and has no time of a hash change.
abbrev pub Settled : Text × Caller → Type 0
Settled e = (e.1.reg_id ≡ e.0) × (e.1.hash_change_at ≡ 0)

pub record IsSound (r : Registry) : Type 0 where
  pub consistent : IsConsistent r
  pub unique : Unique r.callers
  pub settled : All Settled r.callers

no_registry-IsSound : IsSound no_registry
unfolding lookup
no_registry-IsSound = record {
  consistent = record {
    keyed = λ k c h. absurd (cc);
    named = λ n k h. absurd (cc);
    pathed = λ p k h. absurd (cc);
    covered = λ k c h. absurd (cc);
  };
  unique = tt;
  settled = tt;
}

resolve_caller-Settled :
    (new_hash reaction k : Text) (c : Caller)
    → Settled (k, c)
    → Settled (k, resolve_caller new_hash reaction c)
unfolding resolve_caller
resolve_caller-Settled new_hash reaction k c h = ground arith

name_free : (n : Text) (r : Registry) → name_exists n r ≡ false → lookup n r.by_name ≡ none
unfolding name_exists
name_free n r h = ground arith

limit_keeps :
    (now : ℕ) (name : Text) (r : Registry)
    → let s = (check_auto_rate_limit now name r).0 in
      (s.callers ≡ r.callers) × (s.by_name ≡ r.by_name) × (s.by_path ≡ r.by_path)
unfolding check_auto_rate_limit
limit_keeps now name r = ground arith

module _ (digest : Document → Text) where
  -- Only these fields matter to the invariant.
  same-IsSound :
      {r s : Registry}
      → s.callers ≡ r.callers
      → s.by_name ≡ r.by_name
      → s.by_path ≡ r.by_path
      → IsSound r
      → IsSound s
  same-IsSound e f g v = record {
    consistent = record {
      keyed = λ k c h. v.consistent.keyed k c (rw (← e) h);
      named = λ n k h. let (c, p, q) = v.consistent.named n k (rw (← f) h) in (c, rw e p, q);
      pathed = λ n k h. let (c, p, q) = v.consistent.pathed n k (rw (← g) h) in (c, rw e p, q);
      covered = λ k c h. rw f (v.consistent.covered k c (rw (← e) h));
    };
    unique = rw e v.unique;
    settled = rw e v.settled;
  }

  Step-IsSound : {r s : Registry} → Step digest r s → IsSound r → IsSound s
  unfolding register_caller activate_caller revoke_caller resolve_hash_change notify_hash_change
  Step-IsSound (register c r new_id new_name) v = record {
    consistent = register_caller-IsConsistent c r new_id (name_free c.name r new_name) v.consistent;
    unique = insert-Unique c.reg_id _ r.callers v.unique;
    settled = All-insert Settled c.reg_id _ r.callers (refl, refl) v.settled;
  }
  Step-IsSound (activate at k r) v = elim (Option-cases (lookup k r.callers)) [
    | inl e ↦ rw (e, activate_caller) v
    | inr (c, e) ↦ record {
      consistent = activate_caller-IsConsistent digest at k r v.consistent;
      unique = rw (e, activate_caller) (insert-Unique k _ r.callers v.unique);
      settled =
          rw (e, activate_caller)
            (All-insert Settled k _ r.callers (All-lookup Settled k r.callers v.settled e)
              v.settled);
    }
  ]
  Step-IsSound (revoke at k r) v = elim (Option-cases (lookup k r.callers)) [
    | inl e ↦ rw (e, revoke_caller) v
    | inr (c, e) ↦ record {
      consistent = revoke_caller-IsConsistent digest at k r v.consistent;
      unique = rw (e, revoke_caller) (erase-Unique k r.callers v.unique);
      settled = rw (e, revoke_caller) (All-erase Settled k r.callers v.settled);
    }
  ]
  Step-IsSound (notify none c new_hash r) v = same-IsSound refl refl refl v
  Step-IsSound (notify (some m) c new_hash r) v = same-IsSound refl refl refl v
  Step-IsSound (resolve at k new_hash reaction r) v = elim (Option-cases (lookup k r.callers)) [
    | inl e ↦ rw (e, resolve_hash_change) v
    | inr (c, e) ↦ record {
      consistent = resolve_hash_change-IsConsistent digest at k r new_hash reaction v.consistent;
      unique = rw (e, resolve_hash_change) (insert-Unique k _ r.callers v.unique);
      settled =
          rw (e, resolve_hash_change)
            (All-insert Settled k _ r.callers
              (resolve_caller-Settled new_hash reaction k c
                (All-lookup Settled k r.callers v.settled e))
              v.settled);
    }
  ]
  Step-IsSound (limit now name r) v = let (e, f, g) = limit_keeps now name r in same-IsSound e f g v

  -- In every registry that the operations build from an empty one, where a registration is made
  -- under a new id and a name that is not taken, the indexes agree with the registrations, no id
  -- stands twice, and no registration has the time of a hash change.
  pub Reach-IsSound : {r : Registry} → Reach digest r → IsSound r
  Reach-IsSound start = no_registry-IsSound
  Reach-IsSound (next reach step) = Step-IsSound step (Reach-IsSound reach)

Any-values :
    (P Q : Text × Caller → Type 0) (d : Dict Caller) {c : Caller}
    → All P d
    → All Q d
    → Any (λ x. x ≡ c) (values d)
    → (k : Text) × P (k, c) × Q (k, c)
Any-values P Q [] p q h = absurd h
Any-values P Q ((k, x) ∷ d) {c} p q (inl e) =
    (k, subst (λ y. P (k, y)) e p.0, subst (λ y. Q (k, y)) e q.0)
Any-values P Q (x ∷ d) p q (inr h) = Any-values P Q d p.1 q.1 h

module _ (digest : Document → Text) (now : ℕ) (entry_name : Text) (field : Option Text)
    (h p : Text) where
  -- In a registry that the operations build so from an empty one, an automatic approval is always
  -- for the registration's current hash: the grace period for the former hash never applies.
  pub Reach-current_hash :
      {r : Registry} {c : Caller}
      → Reach digest r
      → check_auto_approve now entry_name field h p r ≡ approved c
      → c.script_hash ≡ h
  unfolding in_grace_period
  Reach-current_hash {r} {c} reach e =
      let sound = Reach-IsSound digest reach in
      let (held, on, path, fits, permits) = check_auto_approve_sound now entry_name field h p r e in
      let (k, a, b) = Any-values Settled Settled r.callers sound.settled sound.settled held in
      elim fits [ inl current ↦ current | inr former ↦ absurd (ground arith) ]

  -- After a registration of a reachable registry is revoked, no request is approved for it.
  pub revoke_caller_forbids :
      (at k : Text) {r : Registry} {c d : Caller}
      → Reach digest r
      → lookup k r.callers ≡ some c
      → check_auto_approve now entry_name field h p (revoke_caller digest at k r).0 ≡ approved d
      → d.reg_id ≢ k
  unfolding revoke_caller
  revoke_caller_forbids at k {r} {c} {d} reach e approval same =
      let held = (check_auto_approve_sound now entry_name field h p _ approval).0 in
      let (j, gone, settled) =
        Any-values (λ x. text_eq k x.0 ≡ false) Settled (erase k r.callers) {c = d}
          (erase_absent k r.callers)
          (All-erase Settled k r.callers (Reach-IsSound digest reach).settled)
          (rw (e, revoke_caller) at held) in
      ground (arith, text_eq_iff k j)

-- Revoking a registration that is held succeeds, its id and its name lead nowhere, every other
-- registration is untouched, and the file lists what is left.
pub revoke_caller_removes :
    (digest : Document → Text) (at k j : Text) (r : Registry) (c : Caller)
    → lookup k r.callers ≡ some c
    → j ≢ k
    → let (s, done) = revoke_caller digest at k r in
      (done ≡ true)
      × (lookup k s.callers ≡ none)
      × (lookup_by_name c.name s ≡ none)
      × (lookup j s.callers ≡ lookup j r.callers)
      × (s.disk ≡ some (document digest at (values s.callers)))
unfolding revoke_caller lookup_by_name
revoke_caller_removes digest at k j r c e off =
    rw (e, revoke_caller)
      (
        refl,
        lookup-erase_self k r.callers,
        ground (arith, lookup-erase_self c.name r.by_name),
        ground (arith, lookup-erase k j r.callers, text_eq_iff j k),
        refl,
      )
