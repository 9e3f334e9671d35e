-- ===== src/Admin/Streams.antt =====
-- `_SseRegistry` of _admin.py: the open streams of each address.
use credential_proxy.Prelude.{
  ℕ, ◌+◌, ◌-◌, ◌≤◌, ◌≡◌, refl, subst, Bool, true, false, none, some, List, [], ◌∷◌, Text, Dict, ltb,
  leb, if◌then◌else◌, lookup, insert, erase, text_eq, text_eq_iff, lookup-insert, lookup-erase,
  arith, Bool-cases, inl, inr,
}

-- `self._conns.get(key, 0)`
unfoldable pub open_of : Text → Dict ℕ → ℕ
open_of key conns = elim (lookup key conns) [ none ↦ 0 | some n ↦ n ]

-- `try_acquire`
unfoldable pub try_acquire : ℕ → Text → Dict ℕ → Dict ℕ × Bool
unfolding open_of
try_acquire max_concurrent key conns =
    let cur = open_of key conns in
    if leb max_concurrent cur then (conns, false) else (insert key (cur + 1) conns, true)

-- `release`
unfoldable pub release : Text → Dict ℕ → Dict ℕ
unfolding open_of
release key conns =
    let cur = open_of key conns in if leb cur 1 then erase key conns else insert key (cur - 1) conns

-- A stream is asked for, or one that is open ends.
pub data Event : Type 0 where
  ask : Text → Event
  end : Text → Event

unfoldable pub run : ℕ → List Event → Dict ℕ → Dict ℕ
unfolding try_acquire release
run max_concurrent [] conns = conns
run max_concurrent (ask key ∷ es) conns =
    run max_concurrent es (try_acquire max_concurrent key conns).0
run max_concurrent (end key ∷ es) conns = run max_concurrent es (release key conns)

-- The streams of an address, counted.
unfoldable pub count_open : ℕ → Text → List Event → ℕ → ℕ
count_open max_concurrent key [] n = n
count_open max_concurrent key (ask k ∷ es) n =
    count_open max_concurrent key es
      (if text_eq key k then (if ltb n max_concurrent then n + 1 else n) else n)
count_open max_concurrent key (end k ∷ es) n =
    count_open max_concurrent key es (if text_eq key k then n - 1 else n)

-- The entry of an address is the count, and there is no entry for none.
abbrev Counts : Text → Dict ℕ → ℕ → Type 0
Counts key conns n = lookup key conns ≡ (if leb n 0 then none else some n)

Counts-open_of : (key : Text) (conns : Dict ℕ) (n : ℕ) → Counts key conns n → open_of key conns ≡ n
unfolding open_of
Counts-open_of key conns n c = ground arith

ask-Counts :
    (max_concurrent : ℕ) (key k : Text) (conns : Dict ℕ) (n : ℕ)
    → Counts key conns n
    → Counts key
        (try_acquire max_concurrent k conns).0
        (if text_eq key k then (if ltb n max_concurrent then n + 1 else n) else n)
unfolding try_acquire
ask-Counts max_concurrent key k conns n c = elim (Bool-cases (text_eq key k)) [
  | inr e ↦ ground (arith, lookup-insert k key (open_of k conns + 1) conns)
  | inl e ↦
      let same : open_of k conns ≡ n =
        subst (λ j. open_of j conns ≡ n) ((text_eq_iff key k).0 e) (Counts-open_of key conns n c) in
      ground (arith, lookup-insert k key (open_of k conns + 1) conns)
]

end-Counts :
    (key k : Text) (conns : Dict ℕ) (n : ℕ)
    → Counts key conns n
    → Counts key (release k conns) (if text_eq key k then n - 1 else n)
unfolding release
end-Counts key k conns n c = elim (Bool-cases (text_eq key k)) [
  | inr e ↦
      ground (arith, lookup-insert k key (open_of k conns - 1) conns, lookup-erase k key conns)
  | inl e ↦
      let same : open_of k conns ≡ n =
        subst (λ j. open_of j conns ≡ n) ((text_eq_iff key k).0 e) (Counts-open_of key conns n c) in
      ground (arith, lookup-insert k key (open_of k conns - 1) conns, lookup-erase k key conns)
]

run-Counts :
    (max_concurrent : ℕ) (key : Text) (es : List Event) (conns : Dict ℕ) (n : ℕ)
    → Counts key conns n
    → Counts key (run max_concurrent es conns) (count_open max_concurrent key es n)
unfolding run count_open
run-Counts max_concurrent key [] conns n c = c
run-Counts max_concurrent key (ask k ∷ es) conns n c =
    run-Counts max_concurrent key es _ _ (ask-Counts max_concurrent key k conns n c)
run-Counts max_concurrent key (end k ∷ es) conns n c =
    run-Counts max_concurrent key es _ _ (end-Counts key k conns n c)

count_open-le :
    (max_concurrent : ℕ) (key : Text) (es : List Event) (n : ℕ)
    → n ≤ max_concurrent
    → count_open max_concurrent key es n ≤ max_concurrent
unfolding count_open
count_open-le max_concurrent key [] n h = h
count_open-le max_concurrent key (ask k ∷ es) n h =
    count_open-le max_concurrent key es _ (ground arith)
count_open-le max_concurrent key (end k ∷ es) n h =
    count_open-le max_concurrent key es _ (ground arith)

-- After any sequence of requests and ends of streams, `_SseRegistry` holds for each address the
-- number of its open streams, which is at most the limit, and no entry for an address that has
-- none.
pub run-counts :
    (max_concurrent : ℕ) (key : Text) (es : List Event)
    → let n = count_open max_concurrent key es 0 in
      (lookup key (run max_concurrent es []) ≡ (if leb n 0 then none else some n))
      × (n ≤ max_concurrent)
unfolding lookup
run-counts max_concurrent key es = (
  run-Counts max_concurrent key es [] 0 refl,
  count_open-le max_concurrent key es 0 (omega arith),
)
