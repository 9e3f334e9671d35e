-- ===== src/Tests/Calls.antt =====
-- The approval of audited calls in _llm.py on one call that the room approves.
use credential_proxy.Prelude.{
  ◌≡◌, ◌↔◌, refl, ap, subst, Bool, true, false, none, some, List, [], ◌∷◌, Text, codes, All, Any,
  Option,
}
use credential_proxy.Tests.Data.{idle, approval}
use credential_proxy.Tests.Audit.{policy, call_to}
use credential_proxy.Proxy.{Proxy}
use credential_proxy.Matrix.{Reaction, on_reaction}
use credential_proxy.Approval.{
  Desk, approved, rejected, expired, Awaits, message, no_message, ask_cancelled, cancelled, woken,
  timed_out, audit_id, begin, message_sent, request_audit_approval, sweep,
}
use credential_proxy.Approval.Decision.{ApprovesCall}
use credential_proxy.Approval.Granted.{
  Run, here, section, reacted, sent, at_wake, request_audit_approval-ApprovesCall,
}
use credential_proxy.Approval.Cleared.{IsEnded, request_audit_approval-IsEnded}
use credential_proxy.Approval.Calls.{
  Call, audit_openai_tool_calls, IsUnobjected, audit_openai_tool_calls-IsUnobjected,
}

abbrev desk : Desk
desk = record { proxy = idle; audit_pending_seq = 0; results = [] }

abbrev react_to : Reaction → Desk → Desk
react_to ev d = record d { proxy = (on_reaction ev d.proxy).0 }

abbrev granted : Awaits
granted = record {
  asked = message (codes "m1");
  while_sending = λ d. d;
  while_waiting = react_to approval;
  wake = woken;
}

is_granted : (request_audit_approval granted (codes "curl") [] desk).result ≡ some approved
unfolding request_audit_approval begin on_reaction credential_proxy.Prelude.lookup
    credential_proxy.Prelude.insert
is_granted = refl

-- The sweeper comes first, and the reaction is late.
swept_first :
    (request_audit_approval
      (record granted { while_waiting = λ d. react_to approval (sweep d) })
      (codes "curl")
      []
      desk).result
    ≡ some rejected
unfolding request_audit_approval begin on_reaction sweep credential_proxy.Prelude.lookup
    credential_proxy.Prelude.insert credential_proxy.Prelude.erase
swept_first = refl

abbrev waiting_desk : Desk
waiting_desk = message_sent (codes "m1") (audit_id 0) (begin (codes "curl") desk).1

abbrev met : List (Reaction × Proxy)
met = (approval, waiting_desk.proxy) ∷ []

granted_run :
    (m : Text)
    → granted.asked ≡ message m
    → Run (begin (codes "curl") desk).1 met (at_wake granted (codes "curl") m desk)
granted_run m e =
    subst (λ x. Run (begin (codes "curl") desk).1 met (at_wake granted (codes "curl") x desk)) same
      (reacted approval
        (section here (sent (codes "m1") (audit_id 0) (begin (codes "curl") desk).1)))
  where
    same : codes "m1" ≡ m
    same =
        ap (λ o. elim o [ message x ↦ x | no_message ↦ codes "m1" | ask_cancelled ↦ codes "m1" ]) e

request_audit_approval-ApprovesCall_example :
    Any {A = Reaction × Proxy} (λ e. ApprovesCall (audit_id 0) e.0 e.1) met
request_audit_approval-ApprovesCall_example =
    request_audit_approval-ApprovesCall granted (codes "curl") [] desk met granted_run is_granted

-- The task is cancelled while it waits.
abbrev interrupted : Awaits
interrupted = record granted { wake = cancelled }

request_audit_approval-IsEnded_example :
    IsEnded
      (audit_id 0)
      (message (codes "m1"))
      (request_audit_approval interrupted (codes "curl") [] desk)
request_audit_approval-IsEnded_example =
    request_audit_approval-IsEnded interrupted (codes "curl") [] desk

abbrev calls : List Call
calls =
    record {
      name = codes "curl";
      args = codes "{}";
      searches = call_to (codes "evil.example");
      awaits = granted;
    }
    ∷ record { name = []; args = []; searches = call_to []; awaits = granted }
    ∷ []

audit_openai_tool_calls-IsUnobjected_example :
    ((audit_openai_tool_calls true false policy calls (desk, [])).0 ≡ some 0)
    ↔ All (IsUnobjected policy) calls
audit_openai_tool_calls-IsUnobjected_example =
    audit_openai_tool_calls-IsUnobjected policy calls (desk, [])

-- In the approving mode the same calls pass.
approved_calls : (audit_openai_tool_calls true true policy calls (desk, [])).0 ≡ some 0
unfolding audit_openai_tool_calls credential_proxy.Approval.Calls.audit_tool_calls on_reaction
    credential_proxy.Prelude.lookup credential_proxy.Prelude.insert
approved_calls = refl
