-- ===== src/Approval/Calls.antt =====
-- `_audit_openai_tool_calls` of _llm.py: the tool calls of an answer are judged one by one.
use credential_proxy.Prelude.{
  ℕ, ◌+◌, ◌≡◌, ◌↔◌, refl, sym, ◌∙◌, ◌⊎◌, Bool, true, false, List, [], ◌∷◌, Text, if◌then◌else◌,
  truthy, All, Bool-cases, inl, inr, arith, ◌≢◌, ap, Option, none, some,
}
use credential_proxy.Audit.Policy.{
  Policy, Searches, Verdict, allow, deny, audit_tool_call, verdict_of,
}
use credential_proxy.Audit.Policy.Decide.{HasReason, audit_tool_call_denies_iff}
use credential_proxy.Approval.{Desk, Result, approved, Awaits, request_audit_approval}

-- A call of the buffer, with what the searches of its audit find and what its approval meets.
pub record Call : Type 0 where
  pub name : Text
  pub args : Text
  pub searches : Searches
  pub awaits : Awaits

pub data Disposal : Type 0 where
  unnamed : Disposal
  allowed : Disposal
  granted : Disposal
  refused : Result → Disposal
  blocked : Disposal
  interrupted : Disposal

-- The state, with the ids that the request tracks.
abbrev pub Tracked : Type 0
Tracked = Desk × List Text

abbrev pub granted_or_refused : Option Result → Disposal
granted_or_refused none = interrupted
granted_or_refused (some approved) = granted
granted_or_refused (some r) = refused r

-- A call that the policy denies: with `audit_mode == 'approve'` the room is asked.
unfoldable pub denied : Bool → Call → Tracked → Disposal × Tracked
unfolding request_audit_approval
denied false c t = (blocked, t)
denied true c (d, ids) =
    let e = request_audit_approval c.awaits c.name ids d in
    (granted_or_refused e.result, (e.desk, e.created_ids))

abbrev pub by_verdict : Verdict → Bool → Call → Tracked → Disposal × Tracked
by_verdict allow mode c t = (allowed, t)
by_verdict deny mode c t = denied mode c t

unfoldable pub judge : Bool → Policy → Call → Tracked → Disposal × Tracked
unfolding denied audit_tool_call verdict_of
judge approve_mode p c t =
    if truthy c.name
    then by_verdict (verdict_of (audit_tool_call true p c.searches c.name c.args)) approve_mode c t
    else (unnamed, t)

-- How many rejections are put in for the call; none where the task is cancelled.
abbrev pub injects : Disposal → Option ℕ
injects unnamed = some 0
injects allowed = some 0
injects granted = some 0
injects (refused r) = some 1
injects blocked = some 1
injects interrupted = none

abbrev pub add_to : ℕ → Option ℕ × Tracked → Option ℕ × Tracked
add_to n (none, t) = (none, t)
add_to n (some k, t) = (some (n + k), t)

-- An interrupted call ends the loop.
abbrev pub go_on : Option ℕ → Tracked → Option ℕ × Tracked → Option ℕ × Tracked
go_on none t rest = (none, t)
go_on (some n) t rest = add_to n rest

-- The loop: how many rejections are put in, unless it is cancelled on the way, and the state.
unfoldable pub audit_tool_calls : Bool → Policy → List Call → Tracked → Option ℕ × Tracked
unfolding judge
audit_tool_calls approve_mode p [] t = (some 0, t)
audit_tool_calls approve_mode p (c ∷ calls) t =
    let (disposal, t') = judge approve_mode p c t in
    go_on (injects disposal) t' (audit_tool_calls approve_mode p calls t')

-- `_audit_openai_tool_calls`
unfoldable pub audit_openai_tool_calls :
    Bool → Bool → Policy → List Call → Tracked → Option ℕ × Tracked
unfolding audit_tool_calls
audit_openai_tool_calls enabled approve_mode p calls t =
    if enabled then audit_tool_calls approve_mode p calls t else (some 0, t)

-- The call has no name, or the policy has nothing against it.
abbrev pub IsUnobjected : Policy → Call → Type 0
IsUnobjected p c = (truthy c.name ≡ false) ⊎ ¬ HasReason p c.searches c.name c.args

verdict_cases : (v : Verdict) → (v ≡ allow) ⊎ (v ≡ deny)
verdict_cases allow = inl refl
verdict_cases deny = inr refl

-- In the blocking mode a call is judged by the policy, and nothing else changes.
judge-IsUnobjected :
    (p : Policy) (c : Call) (t : Tracked)
    → ((injects (judge false p c t).0 ≡ some 0) × IsUnobjected p c)
      ⊎ ((injects (judge false p c t).0 ≡ some 1) × ¬ IsUnobjected p c)
unfolding judge denied
judge-IsUnobjected p c t = elim (Bool-cases (truthy c.name)) [
  | inr e ↦ rw e (inl (refl, inl refl))
  | inl e ↦
      let (there, back) = audit_tool_call_denies_iff p c.searches c.name c.args in
      elim (verdict_cases (verdict_of (audit_tool_call true p c.searches c.name c.args))) [
        | inl v ↦ rw (e, v) (inl (refl, inr (λ r. allow_not_deny (sym v ∙ back r))))
        | inr v ↦
            rw (e, v)
              (inr
                (refl, λ h. elim h [ inl n ↦ absurd (cc) | inr none_found ↦ none_found (there v) ]))
      ]
]
  where
    allow_not_deny : allow ≡ deny → ⊥
    allow_not_deny h = cc

add_to-zero : (r : Option ℕ × Tracked) → (add_to 0 r).0 ≡ r.0
add_to-zero (none, t) = refl
add_to-zero (some k, t) = ap some (omega arith)

some-inj : (n k : ℕ) → some n ≡ some k → n ≡ k
some-inj n k e = ap (λ o. elim o [ none ↦ n | some x ↦ x ]) e

add_to_one : (r : Option ℕ × Tracked) → (add_to 1 r).0 ≢ some 0
add_to_one (none, t) e = cc
add_to_one (some k, t) e = absurd (omega (arith, some-inj (1 + k) 0 e))

-- One round of the loop.
round :
    (p : Policy) (c : Call) (calls : List Call) (t : Tracked) (n : ℕ)
    → injects (judge false p c t).0 ≡ some n
    → (audit_tool_calls false p (c ∷ calls) t).0
      ≡ (add_to n (audit_tool_calls false p calls (judge false p c t).1)).0
unfolding audit_tool_calls
round p c calls t n e =
    let t' = (judge false p c t).1 in ap (λ o. (go_on o t' (audit_tool_calls false p calls t')).0) e

audit_tool_calls-IsUnobjected :
    (p : Policy) (calls : List Call) (t : Tracked)
    → ((audit_tool_calls false p calls t).0 ≡ some 0) ↔ All (IsUnobjected p) calls
unfolding audit_tool_calls
audit_tool_calls-IsUnobjected p [] t = (λ h. tt, λ h. refl)
audit_tool_calls-IsUnobjected p (c ∷ calls) t =
    let t' = (judge false p c t).1 in
    let (there, back) = audit_tool_calls-IsUnobjected p calls t' in
    elim (judge-IsUnobjected p c t) [
      | inl (e, u) ↦
          let same = round p c calls t 0 e ∙ add_to-zero (audit_tool_calls false p calls t') in
          (λ h. (u, there (sym same ∙ h)), λ h. same ∙ back h.1)
      | inr (e, u) ↦ (
        λ h.
            absurd
              (add_to_one (audit_tool_calls false p calls t') (sym (round p c calls t 1 e) ∙ h)),
        λ h. absurd (u h.0),
      )
    ]

-- With the audit on and in the blocking mode, an answer passes without a rejection exactly if each of
-- its tool calls has no name or gives the policy no reason to deny it.
pub audit_openai_tool_calls-IsUnobjected :
    (p : Policy) (calls : List Call) (t : Tracked)
    → ((audit_openai_tool_calls true false p calls t).0 ≡ some 0) ↔ All (IsUnobjected p) calls
unfolding audit_openai_tool_calls
audit_openai_tool_calls-IsUnobjected p calls t = audit_tool_calls-IsUnobjected p calls t
