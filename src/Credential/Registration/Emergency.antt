-- ===== src/Credential/Registration/Emergency.antt =====
-- The revocations of _credential.py: whom the emergency one lets in, and what either leaves of a
-- registration.
use credential_proxy.Prelude.{
  ◌≡◌, ◌≢◌, true, false, none, some, Text, truthy, strip, text_eq, text_eq_iff, text_eq_refl,
  lookup, lookup-erase_self, Bool-cases, Option-cases, inl, inr, ◌⊎◌, ◌↔◌, arith, ap,
}
use credential_proxy.Registry.Store.{Caller}
use credential_proxy.Registry.{lookup_by_name, revoke_caller}
use credential_proxy.Registry.Invariant.{IsConsistent}
use credential_proxy.Proxy.{Proxy}
use credential_proxy.Credential.Reply.{Response, revoked}
use credential_proxy.Credential.{
  Config, AuthData, require_auth, decision, enqueue_revoke, cleanup_request,
}
use credential_proxy.Credential.Auth.{IsAuthentic, require_auth_iff}
use credential_proxy.Credential.Registration.{
  Surroundings, RevokeBody, revoke_named, revoke_decided, revoke_asked, handle_revoke, is_internal,
  handle_revoke_emergency,
}

-- The request carries the administrator's token or comes from an address that counts as internal.
abbrev pub IsAdmin : Text → RevokeBody → Type 0
IsAdmin admin_token b = (b.admin_token ≡ admin_token) ⊎ (is_internal b.peer ≡ true)

module _ (env : Surroundings) (name : Text) (p : Proxy) where
  revoke_named-revoked :
      (n : Text)
      → (revoke_named env name p).1 ≡ revoked n
      → (c : Caller) × (lookup_by_name name p.registry ≡ some c)
  unfolding revoke_named
  revoke_named-revoked n h = elim (Option-cases (lookup_by_name name p.registry)) [
    | inl e ↦ absurd (ground arith)
    | inr found ↦ found
  ]

require_auth_ne_revoked :
    (cfg : Config) (a : AuthData) (n : Text) → require_auth cfg a ≢ some (revoked n)
unfolding require_auth
require_auth_ne_revoked cfg a n e = ground arith

module _ (env : Surroundings) (cfg : Config) (admin_token : Text) (b : RevokeBody) (p : Proxy) where
  abbrev pub MayRevoke : Type 0
  MayRevoke =
      IsAuthentic cfg b.auth
      × IsAdmin admin_token b
      × (truthy (strip b.name) ≡ true)
      × ((c : Caller) × (lookup_by_name (strip b.name) p.registry ≡ some c))

  emergency_sound :
      (handle_revoke_emergency env cfg admin_token b p).1 ≡ revoked (strip b.name) → MayRevoke
  unfolding handle_revoke_emergency
  emergency_sound h = elim (Option-cases (require_auth cfg b.auth)) [
    | inr (r, e) ↦ absurd (refused r e)
    | inl e ↦ (
      (require_auth_iff cfg b.auth).0 e,
      admin e (Bool-cases (text_eq b.admin_token admin_token)),
      ground arith,
      revoke_named-revoked env (strip b.name) p (strip b.name) (ground arith),
    )
  ]
    where
      refused : (r : Response) → require_auth cfg b.auth ≡ some r → ⊥
      refused r e = require_auth_ne_revoked cfg b.auth (strip b.name) (ground arith)

      admin :
          require_auth cfg b.auth ≡ none
          → ((text_eq b.admin_token admin_token ≡ true)
              ⊎ (text_eq b.admin_token admin_token ≡ false))
          → IsAdmin admin_token b
      admin e (inl same) = inl (ground (arith, text_eq_iff b.admin_token admin_token))
      admin e (inr f) = inr (ground arith)

  emergency_complete :
      MayRevoke → (handle_revoke_emergency env cfg admin_token b p).1 ≡ revoked (strip b.name)
  unfolding handle_revoke_emergency revoke_named
  emergency_complete (authentic, admin, named, (c, found)) = ground (
    arith,
    (require_auth_iff cfg b.auth).1 authentic,
    text_eq_refl b.admin_token,
    ap (text_eq b.admin_token),
  )

  -- The emergency revocation reports success exactly for an authentic request with the
  -- administrator's token or an internal address, that names a registration of the registry. No
  -- more is asked: where no token is configured, the empty token of a request that brings none
  -- is the right one.
  pub handle_revoke_emergency_iff :
      ((handle_revoke_emergency env cfg admin_token b p).1 ≡ revoked (strip b.name)) ↔ MayRevoke
  handle_revoke_emergency_iff = (emergency_sound, emergency_complete)

module _ (env : Surroundings) (name : Text) (p : Proxy) (v : IsConsistent p.registry) where
  -- In a consistent registry, after the revocation of a name is reported, the name leads to no
  -- registration.
  pub revoke_named_gone :
      (n : Text)
      → (revoke_named env name p).1 ≡ revoked n
      → lookup_by_name name (revoke_named env name p).0.registry ≡ none
  unfolding revoke_named revoke_caller lookup_by_name
  revoke_named_gone n h = elim (Option-cases (lookup name p.registry.by_name)) [
    | inl e ↦ absurd (ground arith)
    | inr (k, e) ↦
        let (c, held, same) = v.named name k e in
        ground (
          arith,
          v.keyed k c held,
          lookup-erase_self c.name p.registry.by_name,
          ap truthy (v.keyed k c held),
        )
  ]

module _ (env : Surroundings) (req_id name n : Text) (p : Proxy) where
  revoke_decided-approved :
      (revoke_decided env req_id name p).1 ≡ revoked n
      → (decision req_id p ≡ some true)
        × ((revoke_decided env req_id name p).0
            ≡ (revoke_named env name (cleanup_request req_id p)).0)
        × ((revoke_named env name (cleanup_request req_id p)).1 ≡ revoked n)
  unfolding revoke_decided
  revoke_decided-approved h = (ground arith, ground arith, ground arith)

module _ (env : Surroundings) (req_id m name n : Text) (p : Proxy) where
  revoke_asked-approved :
      (revoke_asked env req_id m name p).1 ≡ revoked n
      → (env.in_time ≡ true)
        × (decision req_id (env.waiting (enqueue_revoke req_id m name p)) ≡ some true)
  unfolding revoke_asked
  revoke_asked-approved h = elim (Bool-cases env.in_time) [
    | inr late ↦ absurd (ground arith)
    | inl on ↦ (on, (revoke_decided-approved env req_id name n _ (rw (on, revoke_asked) at h)).0)
  ]

module _ (env : Surroundings) (cfg : Config) (req_id : Text) (b : RevokeBody) (p : Proxy) where
  -- `/revoke` reports success only if its request is authentic, its message was sent, the wait
  -- for the request that it entered ended in time, and the request was then found approved.
  pub handle_revoke-approved :
      (n : Text)
      → (handle_revoke env cfg req_id b p).1 ≡ revoked n
      → IsAuthentic cfg b.auth
        × (env.in_time ≡ true)
        × ((m : Text) × (env.msg_id ≡ some m)
            × (decision req_id (env.waiting (enqueue_revoke req_id m (strip b.name) (env.asking p)))
                ≡ some true))
  unfolding handle_revoke
  handle_revoke-approved n h = elim (Option-cases (require_auth cfg b.auth)) [
    | inr (r, e) ↦ absurd (require_auth_ne_revoked cfg b.auth n (ground arith))
    | inl e ↦ elim (Option-cases env.msg_id) [
      | inl unsent ↦ absurd (ground arith)
      | inr (m, sent) ↦
          let (on, granted) =
            revoke_asked-approved env req_id m (strip b.name) n (env.asking p) (ground arith) in
          ((require_auth_iff cfg b.auth).0 e, on, (m, sent, granted))
    ]
  ]
