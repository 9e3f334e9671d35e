-- ===== src/Registry/Mode.antt =====
-- The part that `allow_mode` plays in `_check_auto_approve`.
use mathlib.Core.Option
use credential_proxy.Prelude.{
  ℕ, ◌≡◌, refl, Bool, true, false, Option, [], ◌∷◌, map, Text, Dict, values, Bool-cases, arith, inl,
  inr,
}
use credential_proxy.Registry.Store.{Caller}
use credential_proxy.Registry.{
  Registry, Verdict, approved, hash_matches, first_match, find_caller_by_hash, path_verdict,
  check_auto_approve,
}

-- The same registration, with another mode.
abbrev pub with_mode : Text → Caller → Caller
with_mode m c = record c { allow_mode = m }

abbrev pub with_modes : Text → Registry → Registry
with_modes m r = record r { callers = map (λ e. (e.0, with_mode m e.1)) r.callers }

abbrev pub is_approved : Verdict → Bool
is_approved (approved c) = true
is_approved _ = false

first_match-map :
    (p : Caller → Bool) (m : Text) (d : Dict Caller)
    → ((c : Caller) → p (with_mode m c) ≡ p c)
    → first_match p (values (map (λ e. (e.0, with_mode m e.1)) d))
      ≡ Option.map (with_mode m) (first_match p (values d))
unfolding first_match
first_match-map p m [] same = refl
first_match-map p m ((k, c) ∷ d) same = elim (Bool-cases (p c)) [
  | inl e ↦ rw (same c, e)
  | inr e ↦ rw (same c, e) (first_match-map p m d same)
]

-- Whether a request is let through does not depend on the modes of the registrations: one that
-- was approved as `manual` passes as one that was approved as `auto`.
pub check_auto_approve_mode :
    (m : Text) (now : ℕ) (entry_name : Text) (field : Option Text) (h p : Text) (r : Registry)
    → is_approved (check_auto_approve now entry_name field h p (with_modes m r))
      ≡ is_approved (check_auto_approve now entry_name field h p r)
unfolding check_auto_approve find_caller_by_hash hash_matches path_verdict
check_auto_approve_mode m now entry_name field h p r =
    ground (arith, first_match-map (hash_matches now h p) m r.callers (λ c. refl))
