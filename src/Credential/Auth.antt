-- ===== src/Credential/Auth.antt =====
-- `_require_auth` and the checks in front of it, as what they let through.
use credential_proxy.Prelude.{
  ◌≡◌, ◌≢◌, refl, true, false, none, [], ◌∷◌, Text, truthy, strip, text_eq_iff, text_eq_refl,
  Bool-cases, inl, inr, ◌⊎◌, ◌↔◌, arith, ap,
}
use credential_proxy.Credential.{
  Config, AuthData, CredentialQuery, require_auth, refuses_raw, check_request,
}

truthy_ne : (t : Text) → truthy t ≡ true → t ≢ []
truthy_ne [] h e = cc
truthy_ne (c ∷ t) h e = cc

truthy_of_ne : (t : Text) → t ≢ [] → truthy t ≡ true
truthy_of_ne [] h = absurd (h refl)
truthy_of_ne (c ∷ t) h = refl

falsy_nil : (t : Text) → truthy t ≡ false → t ≡ []
falsy_nil [] h = refl
falsy_nil (c ∷ t) h = absurd (cc)

-- Nothing is configured, or both factors are and the request has them.
abbrev pub IsAuthentic : Config → AuthData → Type 0
IsAuthentic cfg a =
    ((cfg.get_binary_hash ≡ []) × (cfg.get_binary_secret ≡ []))
    ⊎ ((cfg.get_binary_hash ≢ [])
        × (cfg.get_binary_secret ≢ [])
        × (a.get_binary_hash ≡ cfg.get_binary_hash)
        × (a.get_binary_secret ≡ cfg.get_binary_secret))

module _ (cfg : Config) (a : AuthData) where
  require_auth_sound : require_auth cfg a ≡ none → IsAuthentic cfg a
  unfolding require_auth
  require_auth_sound h = elim (Bool-cases (truthy cfg.get_binary_hash)) [
    | inr no_hash ↦ elim (Bool-cases (truthy cfg.get_binary_secret)) [
      | inr no_secret ↦ inl (falsy_nil _ no_hash, falsy_nil _ no_secret)
      | inl secret ↦ absurd (
          ground (
            arith,
            falsy_nil cfg.get_binary_hash,
            text_eq_iff a.get_binary_hash cfg.get_binary_hash,
          ))
    ]
    | inl hash ↦ inr (
      truthy_ne _ hash,
      λ e. ground (
        arith,
        falsy_nil a.get_binary_secret,
        text_eq_iff a.get_binary_secret cfg.get_binary_secret,
      ),
      ground (arith, text_eq_iff a.get_binary_hash cfg.get_binary_hash),
      ground (arith, text_eq_iff a.get_binary_secret cfg.get_binary_secret),
    )
  ]

  require_auth_complete : IsAuthentic cfg a → require_auth cfg a ≡ none
  unfolding require_auth
  require_auth_complete (inl (no_hash, no_secret)) = rw (no_hash, no_secret)
  require_auth_complete (inr (hash, secret, same_hash, same_secret)) = rw (
    same_hash,
    same_secret,
    truthy_of_ne _ hash,
    truthy_of_ne _ secret,
    text_eq_refl cfg.get_binary_hash,
    text_eq_refl cfg.get_binary_secret,
  )

  -- A request passes exactly if no factor is configured at all, or both are and the request
  -- carries them; with one factor configured and the other not, no request passes.
  pub require_auth_iff : (require_auth cfg a ≡ none) ↔ IsAuthentic cfg a
  require_auth_iff = (require_auth_sound, require_auth_complete)

-- A request gets past the checks exactly if it names an entry, is authentic and has the hash of
-- its caller, and if it wants a raw value, the caller is not the configured `get` binary.
abbrev pub MayEnter : Config → CredentialQuery → Type 0
MayEnter cfg q =
    (strip q.entry ≢ [])
    × IsAuthentic cfg q.auth
    × (q.auth.caller_hash ≢ [])
    × ((q.use_token ≡ true)
        ⊎ ((cfg.get_binary_hash ≡ []) ⊎ (q.auth.caller_hash ≢ cfg.get_binary_hash)))

module _ (cfg : Config) (q : CredentialQuery) where
  check_request_sound : check_request cfg q ≡ none → MayEnter cfg q
  unfolding check_request refuses_raw
  check_request_sound h = (
    truthy_ne _ (ground arith),
    require_auth_sound cfg q.auth (ground arith),
    truthy_ne _ (ground arith),
    raw (Bool-cases q.use_token) (Bool-cases (truthy cfg.get_binary_hash)),
  )
    where
      raw :
          ((q.use_token ≡ true) ⊎ (q.use_token ≡ false))
          → ((truthy cfg.get_binary_hash ≡ true) ⊎ (truthy cfg.get_binary_hash ≡ false))
          → (q.use_token ≡ true)
            ⊎ ((cfg.get_binary_hash ≡ []) ⊎ (q.auth.caller_hash ≢ cfg.get_binary_hash))
      raw (inl t) b = inl t
      raw (inr f) (inr e) = inr (inl (falsy_nil _ e))
      raw (inr f) (inl e) =
          inr (inr (λ same. ground (arith, text_eq_iff q.auth.caller_hash cfg.get_binary_hash)))

  not_refused :
      (q.use_token ≡ true)
        ⊎ ((cfg.get_binary_hash ≡ []) ⊎ (q.auth.caller_hash ≢ cfg.get_binary_hash))
      → refuses_raw cfg q ≡ false
  unfolding refuses_raw
  not_refused (inl t) = rw t
  not_refused (inr (inl e)) = ground (arith, ap truthy e)
  not_refused (inr (inr ne)) = ground (arith, text_eq_iff q.auth.caller_hash cfg.get_binary_hash)

  check_request_complete : MayEnter cfg q → check_request cfg q ≡ none
  unfolding check_request
  check_request_complete (entry, authentic, caller, raw) =
      rw (truthy_of_ne _ entry, require_auth_complete cfg q.auth authentic, truthy_of_ne _ caller)
        (ground (arith, not_refused raw, truthy_of_ne q.auth.caller_hash caller))

  -- The checks in front of the automatic approval let exactly those requests through that may
  -- enter.
  pub check_request_iff : (check_request cfg q ≡ none) ↔ MayEnter cfg q
  check_request_iff = (check_request_sound, check_request_complete)
