-- ===== src/Unlock/Wake.antt =====
-- Who waits for the event in `unlock_event` is woken before it is forgotten, and what the generation
-- counter of _tpm.py and _credential.py protects from.
use credential_proxy.Prelude.{
  ℕ, ◌≡◌, refl, ap, ◌∙◌, true, false, Option, none, some, List, [], ◌∷◌, Text, truthy, ◌==◌, any,
  text_eq, Bool-cases, inl, inr, ◌⊎◌, arith,
}
use credential_proxy.Proxy.{Proxy, Request, is_set, set_event, wake_unlock, drop_unlock}
use credential_proxy.Unlock.{do_unlock, do_unlock_failed, auto_unlock_end, auto_unlock_failed}
use credential_proxy.Reactions.{reaction_approve}
use credential_proxy.Matrix.{lock_proxy, react_unlock, wake_requests}

-- If the event in `unlock_event` is forgotten, it was set; and no event is unset.
pub record Wakes (p q : Proxy) : Type 0 where
  pub woken : (e : ℕ) → p.unlock_event ≡ some e → (q.unlock_event ≡ some e) ⊎ (is_set e q ≡ true)
  pub kept : (e : ℕ) → is_set e p ≡ true → is_set e q ≡ true

is_set-set_event : (e : ℕ) (p : Proxy) → is_set e (set_event e p) ≡ true
unfolding is_set
is_set-set_event e p = ground arith

is_set_kept : (e d : ℕ) (p : Proxy) → is_set e p ≡ true → is_set e (set_event d p) ≡ true
unfolding is_set
is_set_kept e d p h = ground arith

Wakes-trans : {p q r : Proxy} → Wakes p q → Wakes q r → Wakes p r
Wakes-trans a b = record {
  woken = λ e h. elim (a.woken e h) [ inl held ↦ b.woken e held | inr was ↦ inr (b.kept e was) ];
  kept = λ e h. b.kept e (a.kept e h);
}

-- Only other fields changed.
Wakes-same :
    {p q : Proxy} → q.unlock_event ≡ p.unlock_event → q.set_events ≡ p.set_events → Wakes p q
unfolding is_set
Wakes-same {p} {q} a b = record {
  woken = λ e h. inl (a ∙ h);
  kept = λ e h. ap (any (λ x. x == e)) b ∙ h;
}

set_event-Wakes : (d : ℕ) (p : Proxy) → Wakes p (set_event d p)
set_event-Wakes d p = record { woken = λ e h. inl h; kept = λ e h. is_set_kept e d p h }

-- The flag of an event that `wake_unlock` finds is up afterwards.
wake_unlock_sets : (e : ℕ) (p : Proxy) → p.unlock_event ≡ some e → is_set e (wake_unlock p) ≡ true
unfolding wake_unlock
wake_unlock_sets e p h = ground (arith, is_set-set_event e p)

wake_unlock_keeps : (e : ℕ) (p : Proxy) → is_set e p ≡ true → is_set e (wake_unlock p) ≡ true
unfolding wake_unlock
wake_unlock_keeps e p h = ground arith

wake_unlock-Wakes : (p : Proxy) → Wakes p (wake_unlock p)
wake_unlock-Wakes p = record {
  woken = λ e h. inr (wake_unlock_sets e p h);
  kept = λ e h. wake_unlock_keeps e p h;
}

drop_unlock-Wakes : (p : Proxy) → Wakes p (drop_unlock p)
unfolding drop_unlock is_set
drop_unlock-Wakes p = record {
  woken = λ e h. inr (wake_unlock_sets e p h);
  kept = λ e h. wake_unlock_keeps e p h;
}

do_unlock_failed-Wakes : (p : Proxy) → Wakes p (do_unlock_failed p)
unfolding do_unlock_failed
do_unlock_failed-Wakes p =
    Wakes-trans (Wakes-same {p = p} {q = record p { unlock_in_progress = false }} refl refl)
      (drop_unlock-Wakes _)

do_unlock-Wakes : (g : ℕ) (pw : Option Text) (p : Proxy) → Wakes p (do_unlock g pw p)
unfolding do_unlock
do_unlock-Wakes g none p = do_unlock_failed-Wakes p
do_unlock-Wakes g (some pw) p = elim (Bool-cases (truthy pw)) [
  | inr e ↦ rw e (do_unlock_failed-Wakes p)
  | inl e ↦ elim (Bool-cases (p.unlock_generation == g)) [
    | inr f ↦ rw (e, f) (Wakes-same {p = p} {q = record p { unlock_in_progress = false }} refl refl)
    | inl f ↦
        rw (e, f)
          (Wakes-trans (Wakes-same {p = p} {q = unlocked} refl refl) (wake_unlock-Wakes unlocked))
  ]
]
  where
    unlocked : Proxy
    unlocked = record p {
      master_password = some pw;
      kp_cached = false;
      unlock_in_progress = false;
      unlock_msg_id = none;
    }

auto_unlock_failed-Wakes : (done : ℕ) (p : Proxy) → Wakes p (auto_unlock_failed done p)
unfolding auto_unlock_failed
auto_unlock_failed-Wakes done p =
    Wakes-trans
      (Wakes-same {p = p} {q = record p { unlock_in_progress = false; auto_unlock_event = none }}
        refl refl)
      (Wakes-trans (drop_unlock-Wakes _) (set_event-Wakes done _))

auto_unlock_end-Wakes :
    (g done : ℕ) (pw : Option Text) (p : Proxy) → Wakes p (auto_unlock_end g done pw p).0
unfolding auto_unlock_end
auto_unlock_end-Wakes g done none p = auto_unlock_failed-Wakes done p
auto_unlock_end-Wakes g done (some pw) p = elim (Bool-cases (truthy pw)) [
  | inr e ↦ rw e (auto_unlock_failed-Wakes done p)
  | inl e ↦ elim (Bool-cases (p.unlock_generation == g)) [
    | inr f ↦ rw (e, f) (Wakes-same {p = p} {q = p} refl refl)
    | inl f ↦
        rw (e, f)
          (Wakes-trans (Wakes-same {p = p} {q = unlocked} refl refl) (
            Wakes-trans (wake_unlock-Wakes unlocked) (
              Wakes-trans (Wakes-same {p = wake_unlock unlocked} {q = ended} refl refl)
                (set_event-Wakes done ended))))
  ]
]
  where
    unlocked : Proxy
    unlocked = record p { master_password = some pw; kp_cached = false }

    ended : Proxy
    ended = record (wake_unlock unlocked) { unlock_in_progress = false; auto_unlock_event = none }

wake_requests-Wakes : (rs : List (Text × Request)) (p : Proxy) → Wakes p (wake_requests rs p)
wake_requests-Wakes [] p = Wakes-same refl refl
wake_requests-Wakes ((k, r) ∷ rs) p =
    Wakes-trans (set_event-Wakes r.event p) (wake_requests-Wakes rs (set_event r.event p))

lock_proxy-Wakes : (p : Proxy) → Wakes p (lock_proxy p)
unfolding lock_proxy
lock_proxy-Wakes p = Wakes-trans (Wakes-same {p = p} {q = locked} refl refl) (
    Wakes-trans (drop_unlock-Wakes locked) (
      Wakes-trans (wake_requests-Wakes p.pending_requests (drop_unlock locked))
        (Wakes-same {p = wake_requests p.pending_requests (drop_unlock locked)} refl refl)))
  where
    locked : Proxy
    locked = record p { master_password = none }

react_unlock-Wakes : (key : Text) (p : Proxy) → Wakes p (react_unlock key p).0
unfolding react_unlock
react_unlock-Wakes key p = elim (Bool-cases (text_eq key reaction_approve)) [
  | inr e ↦ rw e (drop_unlock-Wakes p)
  | inl e ↦ elim (Bool-cases p.unlock_in_progress) [
    | inl f ↦ Wakes-same (ground arith) (ground arith)
    | inr f ↦ Wakes-same (ground arith) (ground arith)
  ]
]

-- However an unlock ends, the event in `unlock_event` is kept there, or it is set: a success, a
-- failure, a refusal and the command `lock proxy` forget no handler that waits for this event, and
-- no event that is set is unset. Nothing is said of the event in `auto_unlock_event`.
pub unlock-Wakes :
    (p : Proxy) (g done : ℕ) (pw : Option Text) (key : Text)
    → Wakes p (do_unlock g pw p)
      × Wakes p (auto_unlock_end g done pw p).0
      × Wakes p (react_unlock key p).0
      × Wakes p (lock_proxy p)
unlock-Wakes p g done pw key = (
  do_unlock-Wakes g pw p,
  auto_unlock_end-Wakes g done pw p,
  react_unlock-Wakes key p,
  lock_proxy-Wakes p,
)

wake_requests_keeps :
    (rs : List (Text × Request)) (p : Proxy)
    → ((wake_requests rs p).master_password ≡ p.master_password)
      × ((wake_requests rs p).unlock_generation ≡ p.unlock_generation)
wake_requests_keeps [] p = (refl, refl)
wake_requests_keeps ((k, r) ∷ rs) p = wake_requests_keeps rs (set_event r.event p)

drop_unlock_keeps :
    (p : Proxy)
    → ((drop_unlock p).master_password ≡ p.master_password)
      × ((drop_unlock p).unlock_generation ≡ p.unlock_generation)
unfolding drop_unlock
drop_unlock_keeps p = ground arith

lock_proxy_keeps :
    (p : Proxy)
    → ((lock_proxy p).master_password ≡ none)
      × ((lock_proxy p).unlock_generation ≡ p.unlock_generation)
unfolding lock_proxy
lock_proxy_keeps p =
    let locked : Proxy = record p { master_password = none } in
    let (a, b) = wake_requests_keeps p.pending_requests (drop_unlock locked) in
    let (c, d) = drop_unlock_keeps locked in (a ∙ c, b ∙ d)

do_unlock_current :
    (g : ℕ) (pw : Text) (q : Proxy)
    → truthy pw ≡ true
    → q.unlock_generation ≡ g
    → (do_unlock g (some pw) q).master_password ≡ some pw
unfolding do_unlock wake_unlock
do_unlock_current g pw q h e = ground arith

-- The command `lock proxy` does not pass the generation on: an unsealing that was started before
-- it and ends after it unlocks the proxy again.
pub do_unlock-lock_proxy :
    (p : Proxy) (pw : Text)
    → truthy pw ≡ true
    → ((lock_proxy p).master_password ≡ none)
      × ((do_unlock p.unlock_generation (some pw) (lock_proxy p)).master_password ≡ some pw)
do_unlock-lock_proxy p pw h =
    let (locked, same) = lock_proxy_keeps p in
    (locked, do_unlock_current p.unlock_generation pw (lock_proxy p) h same)
