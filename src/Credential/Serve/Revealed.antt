-- ===== src/Credential/Serve/Revealed.antt =====
-- When /credential reveals anything of the database.
use credential_proxy.Prelude.{
  ◌+◌, ◌≤◌, ◌≡◌, ◌≢◌, refl, true, none, Bool-cases, Option-cases, inl, inr, ◌⊎◌, arith, subst,
}
use credential_proxy.Registry.Store.{Caller}
use credential_proxy.Registry.{check_auto_rate_limit, auto_rate_interval}
use credential_proxy.Registry.Rate.{last_pass, check_auto_rate_limit_pass}
use credential_proxy.Proxy.{Proxy}
use credential_proxy.Credential.Reply.{Response}
use credential_proxy.Credential.{Config, CredentialQuery, check_request}
use credential_proxy.Credential.Flow.{
  Surroundings, Outcome, reply, auto_approve, release, handle_credential,
}
use credential_proxy.Credential.Flow.Justified.{
  IsFail, Justified, IsEntitled, IsDue, handle_credential-IsDue,
}
use credential_proxy.Credential.Serve.{Backend, unlock_for, query, handle_auto_approve, serve}

-- A registration that is entitled to the entry, whose last automatic pass is one interval ago,
-- and the proxy is unlocked or the registration may unlock it.
module _ (back : Backend) (env : Surroundings) (cfg : Config) (q : CredentialQuery)
    (p : Proxy) where
  abbrev pub IsAutomatic : Type 0
  IsAutomatic =
      (c : Caller) × IsEntitled env cfg q p c
      × (last_pass c.name p.registry + auto_rate_interval ≤ back.monotonic)
      × ((p.master_password ≢ none) ⊎ (c.can_auto_unlock ≡ true))

  abbrev pub IsApproved : Type 0
  IsApproved = (s : Proxy) × Justified env q (s, release)

  handle_auto_approve-IsAutomatic :
      (c : Caller) (s : Proxy)
      → ¬ IsFail (handle_auto_approve back q c s).1
      → (last_pass c.name s.registry + auto_rate_interval ≤ back.monotonic)
        × ((s.master_password ≢ none) ⊎ (c.can_auto_unlock ≡ true))
  unfolding handle_auto_approve unlock_for
  handle_auto_approve-IsAutomatic c s h =
      elim (Bool-cases (check_auto_rate_limit back.monotonic c.name s.registry).1) [
        | inr limited ↦ absurd (h (rw (limited, handle_auto_approve) tt))
        | inl ok ↦ (
          (check_auto_rate_limit_pass back.monotonic c.name s.registry ok).0,
          elim (Option-cases s.master_password) [
            | inr (m, e) ↦ inl (λ f. absurd (ground arith))
            | inl e ↦ elim (Bool-cases c.can_auto_unlock) [
              | inl can ↦ inr can
              | inr cannot ↦ absurd (
                  h (
                    rw (ok, handle_auto_approve)
                      (rw (e, handle_auto_approve) (rw (cannot, handle_auto_approve) tt))))
            ]
          ],
        )
      ]

  -- Whatever other tasks do during the awaits, an answer of /credential that is not an error is
  -- for a request that passed the checks, and that an entitled registration asked for within its
  -- rate, or whose pending request was found approved.
  pub serve_reveals :
      ¬ IsFail (serve back env cfg q p).1
      → (check_request cfg q ≡ none) × (IsAutomatic ⊎ IsApproved)
  unfolding serve
  serve_reveals h = go (handle_credential env cfg q p) refl (handle_credential-IsDue env cfg q p) h
    where
      go :
          (r : Proxy × Outcome)
          → handle_credential env cfg q p ≡ r
          → IsDue env cfg q p r
          → ¬ IsFail
              (elim r.1 as (λ x. Proxy × Response) [
                | reply r' ↦ (r.0, r')
                | auto_approve c ↦ handle_auto_approve back q c r.0
                | release ↦ query back q r.0
              ]).1
          → (check_request cfg q ≡ none) × (IsAutomatic ⊎ IsApproved)
      go (s, reply r') e due h = absurd (h due)
      go (s, auto_approve c) e (passed, same, entitled) h =
          let (far, may) = handle_auto_approve-IsAutomatic c s h in
          (
            passed,
            inl (
              c,
              entitled,
              subst (λ x. last_pass c.name x.registry + auto_rate_interval ≤ back.monotonic) same
                  far,
              subst (λ x. (x.master_password ≢ none) ⊎ (c.can_auto_unlock ≡ true)) same may,
            ),
          )
      go (s, release) e (passed, justified) h = (passed, inr (s, justified))
