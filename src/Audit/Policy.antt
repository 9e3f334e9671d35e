-- ===== src/Audit/Policy.antt =====
-- `audit_tool_call` of _audit.py: the verdict on a tool call and the reason that is logged.
pub mod Decide
use credential_proxy.Prelude.{
  Bool, true, false, ◌&&◌, ◌||◌, not, Option, none, some, List, [], ◌∷◌, Text, codes, any,
  if◌then◌else◌, text_eq, truthy, map,
}
use credential_proxy.Audit.Host.{is_external_host}

-- A rule of the list `dangerous`.
pub record Rule : Type 0 where
  pub pattern : Text
  pub reason : Option Text
  pub network : Bool

pub record Policy : Type 0 where
  pub allow : List Text
  pub deny : List Text
  pub dangerous : List Rule
  pub internal_suffixes : List Text

-- What `re` answers: whether a pattern is found in the normalised text or in the arguments, none
-- for the `re.error`, and what the two expressions of `_extract_host` find.
pub record Searches : Type 0 where
  pub search : Text → Option Bool
  pub url_host : Option Text
  pub tool_host : Option Text

-- `_extract_host`
unfoldable pub extract_host : Searches → Text → Option Text
extract_host se [] = none
extract_host se (c ∷ args) = elim se.url_host [ some h ↦ some h | none ↦ se.tool_host ]

-- `host and is_external_host(host, …) is True`
unfoldable pub goes_outside : Policy → Option Text → Bool
unfolding is_external_host
goes_outside p none = false
goes_outside p (some host) = elim (is_external_host host p.internal_suffixes) [
  | none ↦ false
  | some b ↦ b
]

-- `host and is_external_host(host, …) is not True`
unfoldable pub not_outside : Policy → Option Text → Bool
unfolding is_external_host
not_outside p none = false
not_outside p (some host) =
    if truthy host
    then elim (is_external_host host p.internal_suffixes) [
      | none ↦ true
      | some true ↦ false
      | some false ↦ true
    ]
    else false

-- Whether one rule blocks the call.
unfoldable pub rule_blocks : Policy → Searches → Option Text → Rule → Bool
unfolding not_outside
rule_blocks p se host rule =
    if not (truthy rule.pattern) then false else elim (se.search rule.pattern) [
      | none ↦ false
      | some false ↦ false
      | some true ↦ if rule.network then not (not_outside p host) else true
    ]

-- The first rule that blocks the call.
unfoldable pub first_block : Policy → Searches → Option Text → List Rule → Option Rule
unfolding rule_blocks
first_block p se host [] = none
first_block p se host (rule ∷ rules) =
    let rest = first_block p se host rules in if rule_blocks p se host rule then some rule else rest

abbrev pub network_tools : List Text
network_tools =
    map codes (
      "curl" ∷ "wget" ∷ "nc" ∷ "ncat" ∷ "telnet" ∷ "ssh" ∷ "bash" ∷ "terminal" ∷ "execute_code"
      ∷ [])

pub data Verdict : Type 0 where
  allow : Verdict
  deny : Verdict

-- The verdict with the rule that is logged; nothing is logged while the audit is off.
pub data Outcome : Type 0 where
  unaudited : Outcome
  logged : Verdict → Text → Outcome

unfoldable pub after_rules : Policy → Option Text → Text → Outcome
unfolding goes_outside text_eq
after_rules p host name =
    if any (text_eq name) network_tools && goes_outside p host
    then logged deny (codes "network-exfil")
    else if any (text_eq name) p.allow
    then logged allow (codes "allow-list")
    else logged allow []

-- `rule.get('reason', pattern)`
unfoldable pub reason_of : Rule → Text
reason_of rule = elim rule.reason [ none ↦ rule.pattern | some r ↦ r ]

unfoldable pub judge_rules : Policy → Option Text → Text → Option Rule → Outcome
unfolding after_rules reason_of
judge_rules p host name none = after_rules p host name
judge_rules p host name (some rule) = logged deny (reason_of rule)

-- `audit_tool_call`
unfoldable pub audit_tool_call : Bool → Policy → Searches → Text → Text → Outcome
unfolding extract_host first_block judge_rules text_eq
audit_tool_call enabled p se name args_json =
    let host = extract_host se args_json in
    if not enabled
    then unaudited
    else if any (text_eq name) p.deny
    then logged deny (codes "deny-list")
    else judge_rules p host name (first_block p se host p.dangerous)

-- The value that is returned.
unfoldable pub verdict_of : Outcome → Verdict
verdict_of unaudited = allow
verdict_of (logged v rule) = v
