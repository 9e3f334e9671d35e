-- ===== src/Audit/Policy/Decide.antt =====
-- When `audit_tool_call` of _audit.py denies a call.
use credential_proxy.Prelude.{
  ◌≡◌, refl, Bool, true, false, ◌&&◌, Option, none, some, List, [], ◌∷◌, Text, any, Any,
  if◌then◌else◌, text_eq, Bool-cases, Option-cases, inl, inr, ◌⊎◌, ◌↔◌, arith,
}
use credential_proxy.Audit.Policy.{
  Rule, Policy, Searches, extract_host, goes_outside, rule_blocks, first_block, network_tools,
  Verdict, allow, deny, logged, after_rules, judge_rules, audit_tool_call, verdict_of,
}

-- A reason to deny: the name is on the list, a rule blocks the call, or a network tool goes outside.
abbrev pub HasReason : Policy → Searches → Text → Text → Type 0
HasReason p se name args_json =
    (any (text_eq name) p.deny ≡ true)
    ⊎ (Any (λ r. rule_blocks p se (extract_host se args_json) r ≡ true) p.dangerous
        ⊎ ((any (text_eq name) network_tools ≡ true)
            × (goes_outside p (extract_host se args_json) ≡ true)))

first_block-some :
    (p : Policy) (se : Searches) (host : Option Text) (rules : List Rule) (r : Rule)
    → first_block p se host rules ≡ some r
    → Any (λ q. rule_blocks p se host q ≡ true) rules
unfolding first_block
first_block-some p se host [] r h = absurd (cc)
first_block-some p se host (q ∷ rules) r h = elim (Bool-cases (rule_blocks p se host q)) [
  | inl e ↦ inl e
  | inr e ↦ inr (first_block-some p se host rules r (rw e at h))
]

first_block-none :
    (p : Policy) (se : Searches) (host : Option Text) (rules : List Rule)
    → first_block p se host rules ≡ none
    → Any (λ q. rule_blocks p se host q ≡ true) rules
    → ⊥
unfolding first_block
first_block-none p se host [] h a = a
first_block-none p se host (q ∷ rules) h a = elim (Bool-cases (rule_blocks p se host q)) [
  | inl e ↦ absurd (ground arith)
  | inr e ↦ elim a [
    | inl now ↦ absurd (ground arith)
    | inr later ↦ first_block-none p se host rules (rw e at h) later
  ]
]

verdict_of-logged : (v : Verdict) (t : Text) → verdict_of (logged v t) ≡ v
unfolding verdict_of
verdict_of-logged v t = refl

-- The tests after the rules, for any values.
denies :
    (a b c : Bool) (x y z : Text)
    → (verdict_of (if a && b then logged deny x else if c then logged allow y else logged allow z)
        ≡ deny)
      ↔ ((a ≡ true) × (b ≡ true))
unfolding verdict_of
denies true true c x y z = (λ h. (refl, refl), λ h. refl)
denies true false true x y z = (λ h. absurd (cc), λ h. absurd (cc))
denies true false false x y z = (λ h. absurd (cc), λ h. absurd (cc))
denies false b true x y z = (λ h. absurd (cc), λ h. absurd (cc))
denies false b false x y z = (λ h. absurd (cc), λ h. absurd (cc))

after_rules-deny :
    (p : Policy) (host : Option Text) (name : Text)
    → (verdict_of (after_rules p host name) ≡ deny)
      ↔ ((any (text_eq name) network_tools ≡ true) × (goes_outside p host ≡ true))
unfolding after_rules
after_rules-deny p host name =
    denies (any (text_eq name) network_tools) (goes_outside p host) (any (text_eq name) p.allow) _ _
      _

judge_rules-deny :
    (p : Policy) (se : Searches) (host : Option Text) (name : Text)
    → (verdict_of (judge_rules p host name (first_block p se host p.dangerous)) ≡ deny) ↔ (
        Any (λ r. rule_blocks p se host r ≡ true) p.dangerous
        ⊎ ((any (text_eq name) network_tools ≡ true) × (goes_outside p host ≡ true)))
unfolding judge_rules verdict_of
judge_rules-deny p se host name = elim (Option-cases (first_block p se host p.dangerous)) [
  | inr (r, e) ↦ rw e (λ h. inl (first_block-some p se host p.dangerous r e), λ h. refl)
  | inl e ↦ rw e (
    λ h. inr ((after_rules-deny p host name).0 h),
    λ h. elim h [
      | inl a ↦ absurd (first_block-none p se host p.dangerous e a)
      | inr b ↦ (after_rules-deny p host name).1 b
    ],
  )
]

pub audit_tool_call_denies_iff :
    (p : Policy) (se : Searches) (name args_json : Text)
    → (verdict_of (audit_tool_call true p se name args_json) ≡ deny) ↔ HasReason p se name args_json
unfolding audit_tool_call
audit_tool_call_denies_iff p se name args_json = elim (Bool-cases (any (text_eq name) p.deny)) [
  | inl e ↦ rw e (λ h. inl refl, λ h. verdict_of-logged _ _)
  | inr e ↦
      let (there, back) = judge_rules-deny p se (extract_host se args_json) name in
      rw e (λ h. inr (there h), λ h. elim h [ inl n ↦ absurd (cc) | inr r ↦ back r ])
]
