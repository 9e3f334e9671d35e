-- ===== src/Matrix/Sender.antt =====
-- Which reactions of _matrix.py depend on who sent them.
use credential_proxy.Prelude.{
  ◌≡◌, ◌≢◌, true, none, Text, text_eq_iff, Bool-cases, Option-cases, inl, inr, ◌⊎◌, arith,
}
use credential_proxy.Proxy.{Proxy}
use credential_proxy.Matrix.{Reaction, is_heard, react, on_reaction, asks_unlock, lookup_truthy}

-- The same reaction from another sender.
abbrev pub from : Text → Reaction → Reaction
from sender ev = record ev { sender = sender }

react-any_sender :
    (a b event_id key : Text) (p : Proxy)
    → (asks_unlock event_id p ≡ true)
      ⊎ ((lookup_truthy event_id p.registry.registration_msgs ≢ none)
          ⊎ (lookup_truthy event_id p.registry.hash_change_msgs ≢ none))
    → react a event_id key p ≡ react b event_id key p
unfolding react
react-any_sender a b event_id key p h = elim (Bool-cases (asks_unlock event_id p)) [
  | inl e ↦ rw e
  | inr e ↦ elim (Option-cases (lookup_truthy event_id p.registry.registration_msgs)) [
    | inr (r, f) ↦ ground arith
    | inl f ↦ elim (Option-cases (lookup_truthy event_id p.registry.hash_change_msgs)) [
      | inr (k, g) ↦ ground arith
      | inl g ↦ absurd (ground arith)
    ]
  ]
]

is_heard-from :
    (a b : Text) (ev : Reaction) (p : Proxy)
    → a ≢ p.user_id
    → b ≢ p.user_id
    → is_heard (from a ev) p ≡ is_heard (from b ev) p
unfolding is_heard
is_heard-from a b ev p ha hb = ground (arith, text_eq_iff a p.user_id, text_eq_iff b p.user_id)

-- On a message that asks to unlock, to register a caller or to accept a changed hash, every
-- member of the room but the bot has the same say: the white list is not consulted.
pub on_reaction-any_sender :
    (a b : Text) (ev : Reaction) (p : Proxy)
    → a ≢ p.user_id
    → b ≢ p.user_id
    → (asks_unlock ev.event_id p ≡ true)
      ⊎ ((lookup_truthy ev.event_id p.registry.registration_msgs ≢ none)
          ⊎ (lookup_truthy ev.event_id p.registry.hash_change_msgs ≢ none))
    → on_reaction (from a ev) p ≡ on_reaction (from b ev) p
unfolding on_reaction
on_reaction-any_sender a b ev p ha hb h =
    ground (arith, is_heard-from a b ev p ha hb, react-any_sender a b ev.event_id ev.key p h)
