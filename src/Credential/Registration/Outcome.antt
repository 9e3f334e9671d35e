-- ===== src/Credential/Registration/Outcome.antt =====
-- How `handle_register_caller` of _credential.py can end: a registration never stays half made.
use credential_proxy.Prelude.{
  if_both, ℕ, ◌≡◌, ◌≢◌, refl, true, ◌||◌, not, Option, none, some, Text, truthy, strip, text_eq,
  lookup, contains, Bool, false, codes, lookup-insert_self, lookup-erase_self, Option-cases, inl,
  inr, ◌⊎◌, arith, ap, ◌∙◌,
}
use credential_proxy.Reactions.{reaction_reject, reaction_auto_unlock}
use credential_proxy.Registry.Store.{Caller}
use credential_proxy.Registry.{
  Registry, activate_caller, register_caller, unsaved, revoke_caller, name_exists,
}
use credential_proxy.Proxy.{Proxy}
use credential_proxy.Credential.Reply.{Response, Error, fail, activated}
use credential_proxy.Credential.{Config, AuthData, require_auth}
use credential_proxy.Credential.Registration.{
  Surroundings, RegisterBody, revoked_registry, grant_auto, written, revoked_with, activated_with,
  put_registry, registration_decided, registration_waited, new_caller, with_registry,
  registration_entered, registration_asked, handle_register_caller,
}

-- The registration is not in the registry and the answer is not `activated`; or it is enabled where
-- it is there, and the answer is `activated`, or the 500 of a write that raised.
abbrev pub IsSettled : Text → Text → Registry × Response → Type 0
IsSettled reg_id name (r, reply) =
    ((lookup reg_id r.callers ≡ none) × (reply ≢ activated reg_id name))
    ⊎ (((c : Caller) → lookup reg_id r.callers ≡ some c → c.enabled ≡ true)
        × ((reply ≡ activated reg_id name) ⊎ (reply ≡ fail 500 Error.registry_not_written)))

module _ (env : Surroundings) (reg_id name : Text) where
  revoked_registry_gone :
      (r : Registry) → lookup reg_id (revoked_registry env reg_id r).callers ≡ none
  unfolding revoke_caller
  revoked_registry_gone r = ground (arith, lookup-erase_self reg_id r.callers)

  activate_caller_enabled :
      (r : Registry) (c : Caller)
      → lookup reg_id (activate_caller env.digest env.updated_at reg_id r).callers ≡ some c
      → c.enabled ≡ true
  unfolding activate_caller
  activate_caller_enabled r c h = elim (Option-cases (lookup reg_id r.callers)) [
    | inl e ↦ absurd (ground arith)
    | inr (d, e) ↦ ground (arith, lookup-insert_self reg_id (record d { enabled = true }) r.callers)
  ]

  grant_auto_enabled :
      (r : Registry)
      → ((c : Caller) → lookup reg_id r.callers ≡ some c → c.enabled ≡ true)
      → (c : Caller) → lookup reg_id (grant_auto env reg_id r).callers ≡ some c
      → c.enabled ≡ true
  unfolding grant_auto
  grant_auto_enabled r on c h = elim (Option-cases (lookup reg_id r.callers)) [
    | inl e ↦ absurd (ground arith)
    | inr (d, e) ↦ ground (
      arith,
      on d e,
      lookup-insert_self reg_id (record d { allow_mode = codes "auto"; can_auto_unlock = true })
          r.callers,
    )
  ]

  abbrev Settled : Registry × Response → Type 0
  Settled = IsSettled reg_id name

  not_written : fail 500 Error.registry_not_written ≢ activated reg_id name
  not_written e = absurd (ground arith)

  revoked_with-IsSettled :
      (n : ℕ) (e : Error) (r : Registry) → Settled (revoked_with env reg_id (fail n e) r)
  unfolding revoked_with written unsaved
  revoked_with-IsSettled n e r =
      if_both Settled (env.first_written || not (contains reg_id r.callers))
        (inl (revoked_registry_gone r, λ f. absurd (ground arith)))
        (inl (revoked_registry_gone r, not_written))

  activated_with-IsSettled :
      (auto : Bool) (r : Registry)
      → Settled (activated_with env reg_id (activated reg_id name) auto r)
  unfolding activated_with written unsaved
  activated_with-IsSettled false r =
      if_both Settled (env.first_written || not (contains reg_id r.callers))
        (inr (activate_caller_enabled r, inl refl)) (inr (activate_caller_enabled r, inr refl))
  activated_with-IsSettled true r =
      let active = activate_caller env.digest env.updated_at reg_id r in
      if_both Settled (env.first_written || not (contains reg_id r.callers))
        (if_both Settled (env.second_written || not (contains reg_id active.callers))
          (inr (grant_auto_enabled active (activate_caller_enabled r), inl refl))
          (inr (grant_auto_enabled active (activate_caller_enabled r), inr refl)))
        (inr (activate_caller_enabled r, inr refl))

  registration_decided-IsSettled :
      (reaction : Option Text) (r : Registry)
      → Settled (registration_decided env reg_id name reaction r)
  unfolding registration_decided
  registration_decided-IsSettled none r = activated_with-IsSettled false r
  registration_decided-IsSettled (some x) r =
      if_both Settled (text_eq x reaction_reject)
        (revoked_with-IsSettled 403 Error.registration_refused r)
        (activated_with-IsSettled (text_eq x reaction_auto_unlock) r)

  registration_waited-IsSettled :
      (msg_id : Text) (p : Proxy)
      → let (q, reply) = registration_waited env reg_id msg_id name p in Settled (q.registry, reply)
  unfolding registration_waited
  registration_waited-IsSettled msg_id p =
      if_both Settled env.in_time (registration_decided-IsSettled _ _)
        (revoked_with-IsSettled 408 Error.approval_timeout _)

require_auth_fails :
    (cfg : Config) (a : AuthData) (i n : Text) → require_auth cfg a ≢ some (activated i n)
unfolding require_auth
require_auth_fails cfg a i n e = ground arith

-- Nothing was touched and nothing activated, or the registration is settled.
abbrev pub Ends : Text → Text → Proxy → Proxy × Response → Type 0
Ends reg_id name p (q, reply) =
    ((q ≡ p) × (reply ≢ activated reg_id name)) ⊎ IsSettled reg_id name (q.registry, reply)

module _ (env : Surroundings) (cfg : Config) (reg_id created_at : Text) (b : RegisterBody)
    (p : Proxy) where
  abbrev Good : Proxy × Response → Type 0
  Good = Ends reg_id (strip b.name) p

  refused-Ends : (n : ℕ) (e : Error) → Good (p, fail n e)
  refused-Ends n e = inl (refl, λ f. absurd (ground arith))

  asked-Ends :
      (asked : Proxy)
      → Good (elim env.msg_id [
        | none ↦
            put_registry env asked
              (revoked_with env reg_id (fail 503 Error.approval_not_sent) asked.registry)
        | some m ↦ registration_asked env reg_id m (strip b.name) asked
      ])
  unfolding registration_asked
  asked-Ends asked = elim (Option-cases env.msg_id) [
    | inl e ↦ rw e (
        inr (
          revoked_with-IsSettled env reg_id (strip b.name) 503 Error.approval_not_sent
            asked.registry))
    | inr (m, e) ↦ rw e (
        inr (
          registration_waited-IsSettled env reg_id (strip b.name) m
            (env.waiting (registration_entered env reg_id m (strip b.name) asked))))
  ]

  -- However the registration of a caller ends, whatever other handlers do while it waits and
  -- whichever write of the file raises: it was turned away before it touched anything; or it is not
  -- in the registry and the answer is not `activated`, as for one that is late or refused; or it is
  -- enabled, unless it was removed meanwhile, and the answer is `activated` or the 500 of a write
  -- that raised.
  pub handle_register_caller-Ends :
      Ends reg_id (strip b.name) p (handle_register_caller env cfg reg_id created_at b p)
  unfolding handle_register_caller
  handle_register_caller-Ends = elim (Option-cases (require_auth cfg b.auth)) [
    | inr (r, e) ↦
        rw (e, handle_register_caller)
          (inl (
            refl,
            λ f. absurd (require_auth_fails cfg b.auth reg_id (strip b.name) (e ∙ ap some f)),
          ))
    | inl e ↦
        rw (e, handle_register_caller)
          (if_both Good (not (truthy (strip b.name))) (refused-Ends 400 Error.missing_name) (
            if_both Good (name_exists (strip b.name) p.registry)
              (refused-Ends 409 (Error.name_taken (strip b.name)))
              (if_both Good
                (not (truthy (strip b.script_path)) || not (truthy (strip b.script_hash)))
                (refused-Ends 400 Error.missing_script)
                (asked-Ends (
                  env.asking
                    (with_registry (register_caller (new_caller reg_id created_at b)) p))))))
  ]
