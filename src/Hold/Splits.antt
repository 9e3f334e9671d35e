-- ===== src/Hold/Splits.antt =====
-- What `_split_safe_hold` of _llm.py loses and what it holds: nothing, and a token that is cut.
use credential_proxy.Prelude.{
  ℕ, zero, suc, ◌-◌, ◌≡◌, refl, sym, ap, subst, ◌∙◌, Option, none, some, List, [], ◌∷◌, ◌++◌, Text,
  if◌then◌else◌, if_both, starts_with, truthy, length, take, drop, last_of, arith, length-append,
}
use credential_proxy.Hold.{
  from_last, cut_hint, hint_run, hints_run, custom_tail_hold_run, before_run,
}
use mathlib.Core.List.{append-nil, append_assoc}
use credential_proxy.Audit.Host.{ends_with}

-- The text ends with the run.
pub data Ends (run : Text) : Text → Type 0 where
  ending : (front : Text) → Ends run (front ++ run)

pub Ends-same : (s : Text) → Ends s s
Ends-same s = ending []

Ends-cons : (run : Text) (c : ℕ) (s : Text) → Ends run s → Ends run (c ∷ s)
Ends-cons run c _ (ending front) = ending (c ∷ front)

pub Ends-nil : (s : Text) → Ends [] s
Ends-nil s = subst (Ends []) (append-nil s) (ending s)

Ends-drop : (n : ℕ) (s : Text) → Ends (drop n s) s
Ends-drop zero s = Ends-same s
Ends-drop (suc n) [] = Ends-same []
Ends-drop (suc n) (c ∷ s) = Ends-cons (drop n s) c s (Ends-drop n s)

pub Ends-last_of : (n : ℕ) (s : Text) → Ends (last_of n s) s
Ends-last_of n s = Ends-drop (length s - n) s

pub Ends-Ends : (r w s : Text) → Ends r w → Ends w s → Ends r s
Ends-Ends r _ _ (ending a) (ending b) = subst (Ends r) (append_assoc b a r) (ending (b ++ a))

-- What `from_last` answers ends the text.
pub data IsLast (s : Text) : Option Text → Type 0 where
  absent : IsLast s none
  present : (found : Text) → Ends found s → IsLast s (some found)

IsLast-cons :
    (part : Text) (c : ℕ) (s : Text) (o : Option Text)
    → IsLast s o
    → IsLast (c ∷ s) (elim o [
      | some found ↦ some found
      | none ↦ if starts_with (c ∷ s) part then some (c ∷ s) else none
    ])
IsLast-cons part c s none h =
    if_both (IsLast (c ∷ s)) (starts_with (c ∷ s) part) (present (c ∷ s) (Ends-same (c ∷ s))) absent
IsLast-cons part c s _ (present found e) = present found (Ends-cons found c s e)

pub from_last-IsLast : (part s : Text) → IsLast s (from_last part s)
unfolding from_last
from_last-IsLast part [] =
    if_both (IsLast []) (starts_with [] part) (present [] (Ends-same [])) absent
from_last-IsLast part (c ∷ s) = IsLast-cons part c s (from_last part s) (from_last-IsLast part s)

cut_hint-Ends : (n : ℕ) (hint win : Text) → Ends (cut_hint n hint win) win
unfolding cut_hint
cut_hint-Ends zero hint win = Ends-nil win
cut_hint-Ends (suc n) hint win =
    if_both (λ r. Ends r win) (ends_with win (take (suc n) hint)) (Ends-last_of (suc n) win)
      (cut_hint-Ends n hint win)

or_cut-Ends :
    (o : Option Text) (n : ℕ) (hint win : Text)
    → IsLast win o
    → Ends (elim o [ some found ↦ found | none ↦ cut_hint n hint win ]) win
or_cut-Ends none n hint win h = cut_hint-Ends n hint win
or_cut-Ends _ n hint win (present found e) = e

hint_run-Ends : (hint win : Text) → Ends (hint_run hint win) win
unfolding hint_run
hint_run-Ends hint win = or_cut-Ends (from_last hint win) _ hint win (from_last-IsLast hint win)

hints_run-Ends : (hints : List Text) (win : Text) → Ends (hints_run hints win) win
unfolding hints_run
hints_run-Ends [] win = Ends-nil win
hints_run-Ends (h ∷ hints) win =
    if_both (λ r. Ends r win) (truthy (take 64 h))
      (if_both (λ r. Ends r win) (truthy (hint_run (take 64 h) win)) (hint_run-Ends (take 64 h) win)
        (hints_run-Ends hints win))
      (hints_run-Ends hints win)

pub custom_tail_hold_run-Ends :
    (content : Text) (hints : List Text) → Ends (custom_tail_hold_run content hints) content
unfolding custom_tail_hold_run
custom_tail_hold_run-Ends content hints =
    Ends-Ends (hints_run hints (last_of 64 content)) (last_of 64 content) content
      (hints_run-Ends hints (last_of 64 content)) (Ends-last_of 64 content)

-- The text is what goes out before it is stripped, and what is held.
pub data Splits (strip : Text → Text) : Text → Text × Text → Type 0 where
  split : (front hold : Text) → Splits strip (front ++ hold) (strip front, hold)

take_front : (front run : Text) → take (length front) (front ++ run) ≡ front
take_front [] run = refl
take_front (c ∷ front) run = ap (◌∷◌ c) (take_front front run)

pub before_run_front : (front run : Text) → before_run (front ++ run) run ≡ front
before_run_front front run =
    ap (λ n. take n (front ++ run)) (omega (arith, length-append front run)) ∙ take_front front run

pub Splits-run :
    (strip : Text → Text) (run content : Text)
    → Ends run content
    → Splits strip content (strip (before_run content run), run)
Splits-run strip run _ (ending front) =
    subst (λ t. Splits strip (front ++ run) (strip t, run)) (sym (before_run_front front run))
      (split front run)

pub Splits-all : (strip : Text → Text) (content : Text) → Splits strip content (strip content, [])
Splits-all strip content =
    subst (λ t. Splits strip t (strip content, [])) (append-nil content) (split content [])
