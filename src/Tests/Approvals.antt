-- ===== src/Tests/Approvals.antt =====
-- The reactions, the unlocking, and the way of a request through /credential.
use credential_proxy.Prelude.{
  ℕ, ◌≡◌, ◌≢◌, ◌+◌, ◌≤◌, refl, Bool, true, false, Option, none, some, List, [], ◌∷◌, Text, Dict,
  codes, arith, All, Any, lookup, values, inl, inr, ◌⊎◌, truthy, subst,
}
use credential_proxy.Tests.Data.{idle, asking, approval, config, factors, mail_query}
use credential_proxy.Reactions.{reaction_approve}
use credential_proxy.Registry.{Registry, PendingRegistration}
use credential_proxy.Proxy.{Proxy}
use credential_proxy.Unlock.{do_unlock, auto_unlock_end}
use credential_proxy.Unlock.Wake.{Wakes, unlock-Wakes, do_unlock-lock_proxy}
use credential_proxy.Matrix.{Reaction, on_reaction, react_unlock, lock_proxy, asks_unlock}
use credential_proxy.Matrix.Once.{Stands, on_reaction-Stands}
use credential_proxy.Matrix.Sender.{from, on_reaction-any_sender}
use credential_proxy.Credential.{CredentialQuery, check_request, decision}
use credential_proxy.Credential.Decision.{Approves}
use credential_proxy.Credential.Release.{here, reacted, Run-Approves}
use credential_proxy.Credential.Reply.{value}
use credential_proxy.Token.{make_token}
use credential_proxy.Credential.Flow.{Surroundings, handle_credential}
use credential_proxy.Credential.Flow.Justified.{IsFail, IsDue, handle_credential-IsDue}
use credential_proxy.Credential.Query.{KeepassEntry, searched}
use credential_proxy.Credential.Serve.{Backend, serve}
use credential_proxy.Credential.Serve.Revealed.{IsAutomatic, IsApproved, serve_reveals}

fresh : decision (codes "q1") asking ≢ some true
unfolding lookup credential_proxy.Prelude.text_eq
fresh e = absurd (ground arith)

approved_after : decision (codes "q1") (on_reaction approval asking).0 ≡ some true
unfolding lookup on_reaction credential_proxy.Prelude.insert
approved_after = refl

Run-Approves_example :
    Any {A = Reaction × Proxy} (λ e. Approves (codes "q1") e.0 e.1) ((approval, asking) ∷ [])
Run-Approves_example = Run-Approves (codes "q1") fresh (reacted approval here) approved_after

on_reaction-Stands_example :
    Stands
      (on_reaction approval asking).0
      (on_reaction (from (codes "bob") approval) (on_reaction approval asking).0).0
on_reaction-Stands_example =
    on_reaction-Stands (from (codes "bob") approval) (on_reaction approval asking).0

-- The proxy is locked, and the message `m2` asks to unlock it.
abbrev locked : Proxy
locked = record idle {
  master_password = none;
  unlock_event = some 0;
  unlock_msg_id = some (codes "m2");
}

abbrev unlocking : Reaction
unlocking = record approval { event_id = codes "m2" }

asks : asks_unlock (codes "m2") locked ≡ true
unfolding credential_proxy.Prelude.text_eq
asks = refl

bob_other : codes "bob" ≢ codes "bot"
bob_other e = absurd (ground arith)

alice_other : codes "alice" ≢ codes "bot"
alice_other e = absurd (ground arith)

on_reaction-any_sender_example :
    on_reaction (from (codes "bob") unlocking) locked
    ≡ on_reaction (from (codes "alice") unlocking) locked
on_reaction-any_sender_example =
    on_reaction-any_sender (codes "bob") (codes "alice") unlocking locked bob_other alice_other
      (inl asks)

unlock-Wakes_example :
    Wakes locked (do_unlock 0 (some (codes "pass")) locked)
    × Wakes locked (auto_unlock_end 0 7 (some (codes "pass")) locked).0
    × Wakes locked (react_unlock reaction_approve locked).0
    × Wakes locked (lock_proxy locked)
unlock-Wakes_example = unlock-Wakes locked 0 7 (some (codes "pass")) reaction_approve

do_unlock-lock_proxy_example :
    ((lock_proxy locked).master_password ≡ none)
    × ((do_unlock 0 (some (codes "pass")) (lock_proxy locked)).master_password
        ≡ some (codes "pass"))
do_unlock-lock_proxy_example = do_unlock-lock_proxy locked (codes "pass") refl

-- Nobody interferes.
abbrev calm : Surroundings
calm = record {
  wall_clock = 5;
  monotonic = 5000;
  notify_msg = some (codes "n");
  unlock_msg = some (codes "m2");
  approval_msg = some (codes "m1");
  req_id = codes "q1";
  unlock_in_time = true;
  approval_in_time = true;
  notifying = λ p. p;
  asking_unlock = λ p. p;
  waiting_unlock = λ p. p;
  asking_approval = λ p. p;
  waiting_approval = λ p. (on_reaction approval p).0;
}

-- Another script asks, and alice approves.
abbrev stranger_query : CredentialQuery
stranger_query = record mail_query {
  auth = record factors { caller_hash = codes "h9"; caller_path = codes "/c" };
}

handle_credential-IsDue_example :
    IsDue calm config stranger_query idle (handle_credential calm config stranger_query idle)
handle_credential-IsDue_example = handle_credential-IsDue calm config stranger_query idle

abbrev mail_entry : KeepassEntry
mail_entry = record {
  title = some (codes "mail");
  username = some (codes "me");
  password = some (codes "hunter22");
  url = none;
  custom = [];
}

abbrev opened : Backend
opened = record {
  configured = true;
  library = record { installed = true; has_protected = true; has_custom = true };
  search = searched (some mail_entry);
  monotonic = 5000;
  unsealed = none;
  unsealing = λ p. p;
}

automatic_reply : (serve opened calm config mail_query idle).1 ≡ value (make_token 1)
unfolding serve handle_credential check_request credential_proxy.Prelude.strip
    credential_proxy.Registry.check_auto_approve lookup
    credential_proxy.Registry.check_auto_rate_limit credential_proxy.Token.maybe_register
    credential_proxy.Prelude.starts_with
automatic_reply = refl

automatic_answer : ¬ IsFail (serve opened calm config mail_query idle).1
automatic_answer h = subst IsFail automatic_reply h

serve_reveals_example :
    (check_request config mail_query ≡ none)
    × (IsAutomatic opened calm config mail_query idle
        ⊎ IsApproved opened calm config mail_query idle)
serve_reveals_example = serve_reveals opened calm config mail_query idle automatic_answer
