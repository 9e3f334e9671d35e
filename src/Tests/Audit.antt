-- ===== src/Tests/Audit.antt =====
-- The audit of _audit.py on a call that a rule blocks, and its log.
use credential_proxy.Prelude.{◌≡◌, refl, Bool, true, false, none, some, List, [], ◌∷◌, Text, codes}
use credential_proxy.Audit.Host.{is_external_host}
use credential_proxy.Audit.Policy.{Rule, Policy, Searches, allow, deny, logged, audit_tool_call}
use credential_proxy.Audit.Log.{Event, AuditLog}

abbrev transfer : Rule
transfer = record { pattern = codes "curl.*http"; reason = some (codes "network"); network = true }

abbrev pub policy : Policy
policy = record {
  allow = codes "curl" ∷ [];
  deny = codes "mkfs" ∷ [];
  dangerous = transfer ∷ [];
  internal_suffixes = codes ".corp.example" ∷ [];
}

abbrev pub call_to : Text → Searches
call_to host = record { search = λ p. some true; url_host = some host; tool_host = none }

-- The same call goes through to a host inside.
inside_call :
    audit_tool_call true policy (call_to (codes "build.corp.example")) (codes "curl") (codes "{}")
    ≡ logged allow (codes "allow-list")
unfolding audit_tool_call
inside_call = refl

hosts :
    (is_external_host (codes "172.20.0.5:8080") [] ≡ some false)
    × (is_external_host (codes "172.32.0.5") [] ≡ some true)
    × (is_external_host (codes " ") [] ≡ none)
    × (is_external_host (codes "Printer.LOCAL.") [] ≡ some false)
unfolding is_external_host
hosts = (refl, refl, refl, refl)

abbrev event_of : Text → Event
event_of name = record { tool = name; verdict = allow; rule = []; summary = []; note = [] }

abbrev small_log : AuditLog
small_log = record { ring = []; ring_max = 2; fail_count = 0; fail_limit = 10; has_path = true }

abbrev three_events : List (Event × Bool)
three_events =
    (event_of (codes "a"), true)
    ∷ (event_of (codes "b"), false)
    ∷ (event_of (codes "c"), false)
    ∷ []
