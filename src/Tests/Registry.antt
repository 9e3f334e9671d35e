-- ===== src/Tests/Registry.antt =====
-- The registry, its file and its rate limit.
use credential_proxy.Prelude.{
  ℕ, ◌≡◌, ◌≢◌, ◌+◌, ◌≤◌, refl, Bool, true, false, Option, none, some, List, [], ◌∷◌, Text, Dict,
  codes, arith, All, Any, Unique, lookup, values, inl, inr, ◌⊎◌,
}
use credential_proxy.Tests.Data.{backup, enabled_backup, digest, registered, one_caller}
use credential_proxy.Registry.Store.{Caller, Document, document, load}
use credential_proxy.Registry.{
  Registry, approved, unmatched, check_auto_approve, register_caller, activate_caller,
  revoke_caller, name_exists,
}
use credential_proxy.Registry.Reach.{
  Reach, IsSound, no_registry, start, next, register, activate, Reach-IsSound, Reach-current_hash,
  revoke_caller_forbids,
}
use credential_proxy.Registry.Approval.{HashFits, Permits, check_auto_approve_sound}
use credential_proxy.Registry.Mode.{is_approved, with_modes, check_auto_approve_mode}
use credential_proxy.Registry.Rate.{passes, Spaced, passes-Spaced}
use credential_proxy.Registry.Roundtrip.{Loadable, restored, load-document}

pub registered-Reach : Reach digest registered
unfolding lookup name_exists
registered-Reach =
    next (next start (register backup no_registry refl refl))
      (activate (codes "now") (codes "r1") (register_caller backup no_registry))

Reach-IsSound_example : IsSound registered
Reach-IsSound_example = Reach-IsSound digest registered-Reach

registered_approves :
    check_auto_approve 5
      (codes "mail")
      (some (codes "password"))
      (codes "h1")
      (codes "/b")
      registered
    ≡ approved enabled_backup
unfolding check_auto_approve activate_caller lookup register_caller credential_proxy.Prelude.insert
    credential_proxy.Prelude.text_eq
registered_approves = refl

Reach-current_hash_example : enabled_backup.script_hash ≡ codes "h1"
Reach-current_hash_example =
    Reach-current_hash digest 5 (codes "mail") (some (codes "password")) (codes "h1") (codes "/b")
      registered-Reach registered_approves

check_auto_approve_sound_example :
    Any (λ x. x ≡ enabled_backup) (values registered.callers)
    × (true ≡ true)
    × (codes "/b" ≡ codes "/b")
    × HashFits 5 (codes "h1") enabled_backup
    × Permits enabled_backup (codes "mail") (some (codes "password"))
check_auto_approve_sound_example =
    check_auto_approve_sound 5 (codes "mail") (some (codes "password")) (codes "h1") (codes "/b")
      registered registered_approves

stranger_unmatched :
    check_auto_approve 5 (codes "mail") none (codes "h2") (codes "/c") registered ≡ unmatched
unfolding check_auto_approve activate_caller lookup register_caller credential_proxy.Prelude.insert
    credential_proxy.Prelude.text_eq
stranger_unmatched = refl

check_auto_approve_mode_example :
    is_approved (
      check_auto_approve 5
        (codes "mail")
        none
        (codes "h1")
        (codes "/b")
        (with_modes (codes "auto") one_caller))
    ≡ is_approved (check_auto_approve 5 (codes "mail") none (codes "h1") (codes "/b") one_caller)
check_auto_approve_mode_example =
    check_auto_approve_mode (codes "auto") 5 (codes "mail") none (codes "h1") (codes "/b")
      one_caller

-- Another registration whose path is the same is still approved.
abbrev other : Caller
other = record backup { reg_id = codes "r2"; name = codes "other"; script_hash = codes "h2" }

abbrev both : Registry
both = activate_caller digest (codes "now") (codes "r2") (register_caller other registered)

both-Reach : Reach digest both
unfolding lookup activate_caller register_caller credential_proxy.Prelude.insert
    credential_proxy.Prelude.text_eq name_exists
both-Reach =
    next (next registered-Reach (register other registered refl refl))
      (activate (codes "now") (codes "r2") (register_caller other registered))

held_first : lookup (codes "r1") both.callers ≡ some enabled_backup
unfolding lookup activate_caller register_caller credential_proxy.Prelude.insert
    credential_proxy.Prelude.text_eq
held_first = refl

other_approved :
    check_auto_approve 5
      (codes "mail")
      none
      (codes "h2")
      (codes "/b")
      (revoke_caller digest (codes "later") (codes "r1") both).0
    ≡ approved (record other { enabled = true })
unfolding check_auto_approve revoke_caller lookup activate_caller register_caller
    credential_proxy.Prelude.insert credential_proxy.Prelude.text_eq credential_proxy.Prelude.erase
other_approved = refl

revoke_caller_forbids_example : codes "r2" ≢ codes "r1"
revoke_caller_forbids_example =
    revoke_caller_forbids digest 5 (codes "mail") none (codes "h2") (codes "/b") (codes "later")
      (codes "r1") both-Reach held_first other_approved

ids_differ : codes "r2" ≢ codes "r1"
ids_differ e = absurd (ground arith)

passes-Spaced_example : Spaced 0 (
    passes
      (codes "backup")
      ((1200, codes "backup") ∷ (1500, codes "backup") ∷ (2200, codes "backup") ∷ [])
      one_caller)
unfolding lookup
passes-Spaced_example =
    passes-Spaced (codes "backup")
      ((1200, codes "backup") ∷ (1500, codes "backup") ∷ (2200, codes "backup") ∷ []) one_caller

one_caller-Unique : Unique one_caller.callers
unfolding lookup
one_caller-Unique = (refl, tt)

one_caller-Loadable : All Loadable one_caller.callers
one_caller-Loadable = ((refl, refl), tt)

load-document_example :
    (load digest (some (document digest (codes "now") (values one_caller.callers)))).callers
    ≡ restored one_caller.callers
load-document_example =
    load-document digest (codes "now") one_caller.callers one_caller-Unique one_caller-Loadable

abbrev tampered : Document
tampered = record (document digest (codes "now") (values one_caller.callers)) {
  integrity = some (codes "other");
}

digests_differ : codes "other" ≢ digest (record tampered { integrity = none })
digests_differ e = absurd (ground arith)
