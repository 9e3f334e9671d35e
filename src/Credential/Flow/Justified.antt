-- ===== src/Credential/Flow/Justified.antt =====
-- Why `handle_credential` goes on to the database: what each outcome rests on.
use credential_proxy.Prelude.{
  if_both, insert, ◌≡◌, refl, Bool, true, false, Option, none, some, Text, strip, if◌then◌else◌,
  Bool-cases, Option-cases, inl, inr, arith, values, Any,
}
use credential_proxy.Registry.Store.{Caller}
use credential_proxy.Registry.{Verdict, approved, refused, mismatch, unmatched, check_auto_approve}
use credential_proxy.Registry.Approval.{HashFits, Permits, check_auto_approve_sound}
use credential_proxy.Proxy.{Proxy, drop_unlock}
use credential_proxy.Credential.Reply.{
  Response, Error, fail, value, full_entry, revoked, activated, resolved,
}
use credential_proxy.Credential.{
  Config, CredentialQuery, require_auth, check_request, Entered, too_soon, unlocked, wait_unlock,
  enter, enqueue, cleanup_request, decision, approval_timeout, finish,
}
use credential_proxy.Credential.Flow.{
  Surroundings, Outcome, reply, auto_approve, release, settle, await_approval, ask_approval,
  await_unlock, ask_unlock, by_matrix, report_mismatch, handle_credential,
}

abbrev pub IsFail : Response → Type 0
IsFail (fail status e) = Unit
IsFail _ = ⊥

check_request-IsFail :
    (cfg : Config) (q : CredentialQuery) (r : Response) → check_request cfg q ≡ some r → IsFail r
unfolding check_request require_auth
check_request-IsFail cfg q (fail n e) h = tt
check_request-IsFail cfg q (value t) h = ground arith
check_request-IsFail cfg q (full_entry t) h = ground arith
check_request-IsFail cfg q (revoked t) h = ground arith
check_request-IsFail cfg q (activated i t) h = ground arith
check_request-IsFail cfg q (resolved t) h = ground arith

module _ (env : Surroundings) where
  -- What reading the decision in the state `w` comes to: an error, or a release of a request that
  -- is approved there and is then forgotten.
  abbrev Ended : Proxy → Proxy × Outcome → Type 0
  Ended w (p, reply r) = IsFail r
  Ended w (p, auto_approve c) = ⊥
  Ended w (p, release) = (decision env.req_id w ≡ some true) × (p ≡ cleanup_request env.req_id w)

  settle-Ended : (w : Proxy) → Ended w (settle env w)
  unfolding settle finish
  settle-Ended w = go (decision env.req_id w) refl
    where
      go :
          (d : Option Bool)
          → decision env.req_id w ≡ d
          → Ended w (
            cleanup_request env.req_id w,
            if (elim d [ some true ↦ true | _ ↦ false ])
                then release
                else reply (fail 403 Error.approval_refused),
          )
      go none e = tt
      go (some false) e = tt
      go (some true) e = (e, refl)

  late-Ended :
      (w : Proxy)
      → Ended w (elim (approval_timeout env.req_id w).1 as (λ x. Proxy × Outcome) [
        | some r ↦ ((approval_timeout env.req_id w).0, reply r)
        | none ↦ settle env (approval_timeout env.req_id w).0
      ])
  unfolding approval_timeout
  late-Ended w = go (decision env.req_id w)
    where
      go :
          (d : Option Bool)
          → let t : Proxy × Option Response = elim d [
            | some true ↦ (w, none)
            | some false ↦ (cleanup_request env.req_id w, some (fail 403 Error.approval_refused))
            | none ↦ (cleanup_request env.req_id w, some (fail 408 Error.approval_timeout))
          ] in
            Ended w (elim t.1 as (λ x. Proxy × Outcome) [
              | some r ↦ (t.0, reply r)
              | none ↦ settle env t.0
            ])
      go none = tt
      go (some false) = tt
      go (some true) = settle-Ended w

  -- The state after the wait for the message `m`, which was sent in the state `p`.
  abbrev pub after_wait : Text → Proxy → Proxy
  after_wait m p =
      env.waiting_approval (record p { approval_msgs = insert m env.req_id p.approval_msgs })

  await_approval-Ended : (m : Text) (p : Proxy) → Ended (after_wait m p) (await_approval env m p)
  unfolding await_approval
  await_approval-Ended m p =
      if_both (Ended (after_wait m p)) env.approval_in_time (settle-Ended (after_wait m p))
        (late-Ended (after_wait m p))

  -- What the path over an approval comes to: an error, or a release, for which the request was
  -- entered undecided, its message was sent, and after the wait for it the request was approved.
  abbrev pub Justified : CredentialQuery → Proxy × Outcome → Type 0
  Justified q (s, reply r) = IsFail r
  Justified q (s, auto_approve c) = ⊥
  Justified q (s, release) =
      (p : Proxy) × (m : Text) × ((enqueue env.req_id q p).1 ≡ true)
      × (env.approval_msg ≡ some m)
      × (decision env.req_id (after_wait m (env.asking_approval (enqueue env.req_id q p).0))
          ≡ some true)
      × (s
          ≡ cleanup_request env.req_id
              (after_wait m (env.asking_approval (enqueue env.req_id q p).0)))

  Ended-Justified :
      (q : CredentialQuery) (p : Proxy) (m : Text) (r : Proxy × Outcome)
      → (enqueue env.req_id q p).1 ≡ true
      → env.approval_msg ≡ some m
      → Ended (after_wait m (env.asking_approval (enqueue env.req_id q p).0)) r
      → Justified q r
  Ended-Justified q p m (s, reply r) queued sent e = e
  Ended-Justified q p m (s, auto_approve c) queued sent e = absurd e
  Ended-Justified q p m (s, release) queued sent e = (p, m, queued, sent, e.0, e.1)

  sent-Justified :
      (q : CredentialQuery) (p : Proxy) (msg : Option Text)
      → env.approval_msg ≡ msg
      → (enqueue env.req_id q p).1 ≡ true
      → let asked = env.asking_approval (enqueue env.req_id q p).0 in
        Justified q (elim msg as (λ x. Proxy × Outcome) [
          | none ↦ (cleanup_request env.req_id asked, reply (fail 503 Error.approval_not_sent))
          | some msg_id ↦ await_approval env msg_id asked
        ])
  sent-Justified q p none sent queued = tt
  sent-Justified q p (some m) sent queued =
      Ended-Justified q p m (await_approval env m (env.asking_approval (enqueue env.req_id q p).0))
        queued sent (await_approval-Ended m (env.asking_approval (enqueue env.req_id q p).0))

  ask_approval-Justified : (q : CredentialQuery) (p : Proxy) → Justified q (ask_approval env q p)
  unfolding ask_approval
  ask_approval-Justified q p = elim (Bool-cases (enqueue env.req_id q p).1) [
    | inl e ↦ rw (e, ask_approval) (sent-Justified q p env.approval_msg refl e)
    | inr e ↦ rw (e, ask_approval) tt
  ]

  await_unlock-Justified : (q : CredentialQuery) (p : Proxy) → Justified q (await_unlock env q p)
  unfolding await_unlock
  await_unlock-Justified q p =
      if_both (Justified q) env.unlock_in_time (ask_approval-Justified q (env.waiting_unlock p)) tt

  asked-Justified :
      (msg : Option Text) (q : CredentialQuery) (p : Proxy)
      → Justified q (elim msg [
        | none ↦ (drop_unlock p, reply (fail 503 Error.unlock_not_sent))
        | some msg_id ↦ await_unlock env q (record p { unlock_msg_id = some msg_id })
      ])
  asked-Justified none q p = tt
  asked-Justified (some m) q p = await_unlock-Justified q _

  ask_unlock-Justified :
      (q : CredentialQuery) (ask : Bool) (p : Proxy) → Justified q (ask_unlock env q ask p)
  unfolding ask_unlock
  ask_unlock-Justified q false p = await_unlock-Justified q p
  ask_unlock-Justified q true p = asked-Justified env.unlock_msg q (env.asking_unlock p)

  entered-Justified :
      (entered : Entered) (q : CredentialQuery) (p : Proxy)
      → Justified q (elim entered [
        | too_soon ↦ (p, reply (fail 429 Error.too_frequent))
        | unlocked ↦ ask_approval env q p
        | wait_unlock e ask ↦ ask_unlock env q ask p
      ])
  entered-Justified too_soon q p = tt
  entered-Justified unlocked q p = ask_approval-Justified q p
  entered-Justified (wait_unlock e ask) q p = ask_unlock-Justified q ask p

  by_matrix-Justified : (q : CredentialQuery) (p : Proxy) → Justified q (by_matrix env q p)
  unfolding by_matrix
  by_matrix-Justified q p = entered-Justified (enter env.monotonic p).1 q (enter env.monotonic p).0

  module _ (cfg : Config) (q : CredentialQuery) (p : Proxy) where
    abbrev verdict : Verdict
    verdict =
        check_auto_approve env.wall_clock (strip q.entry) (some (strip q.field)) q.auth.caller_hash
          q.auth.caller_path p.registry

    -- What the caller that the handler goes on for must be.
    abbrev pub IsEntitled : Caller → Type 0
    IsEntitled c =
        Any (λ x. x ≡ c) (values p.registry.callers)
        × (c.enabled ≡ true)
        × (c.script_path ≡ q.auth.caller_path)
        × HashFits env.wall_clock q.auth.caller_hash c
        × Permits c (strip q.entry) (some (strip q.field))

    abbrev pub IsDue : Proxy × Outcome → Type 0
    IsDue (s, reply r) = IsFail r
    IsDue (s, auto_approve c) = (check_request cfg q ≡ none) × (s ≡ p) × IsEntitled c
    IsDue (s, release) = (check_request cfg q ≡ none) × Justified q (s, release)

    due : (r : Proxy × Outcome) → check_request cfg q ≡ none → Justified q r → IsDue r
    due (s, reply r) passed j = j
    due (s, auto_approve c) passed j = absurd j
    due (s, release) passed j = (passed, j)

    dispatched :
        (v : Verdict)
        → verdict ≡ v
        → check_request cfg q ≡ none
        → IsDue (elim v [
          | approved c ↦ (p, auto_approve c)
          | refused c ↦ (p, reply (fail 403 (Error.not_permitted c.name (strip q.entry))))
          | mismatch c ↦ by_matrix env q (report_mismatch env q c p)
          | unmatched ↦ by_matrix env q p
        ])
    dispatched (approved c) e passed = (
      passed,
      refl,
      check_auto_approve_sound env.wall_clock (strip q.entry) (some (strip q.field))
          q.auth.caller_hash q.auth.caller_path p.registry e,
    )
    dispatched (refused c) e passed = tt
    dispatched (mismatch c) e passed = due _ passed (by_matrix-Justified q _)
    dispatched unmatched e passed = due _ passed (by_matrix-Justified q p)

    -- Whatever other tasks do during the awaits, what the handler answers itself is an error, and
    -- it goes on to the database only if the
    -- checks of the request passed, and either for an enabled registration whose path and hash
    -- are the caller's and whose white list permits the entry, or because the request that
    -- it entered undecided, with the message that it sent, was approved after the wait, and was
    -- then cleaned up.
    pub handle_credential-IsDue : IsDue (handle_credential env cfg q p)
    unfolding handle_credential
    handle_credential-IsDue = elim (Option-cases (check_request cfg q)) [
      | inl passed ↦ rw (passed, handle_credential) (dispatched verdict refl passed)
      | inr (r, e) ↦ rw (e, handle_credential) (check_request-IsFail cfg q r e)
    ]
