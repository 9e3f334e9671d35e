-- ===== src/Pii/Scan/Fits.antt =====
-- What a scan of _pii.py reports fits the text, and is beside every secret in it.
use credential_proxy.Prelude.{
  ℕ, zero, suc, ◌+◌, ◌-◌, ◌≤◌, ◌≡◌, refl, sym, ap, ◌∙◌, Bool, false, Option, none, some, List, [],
  ◌∷◌, ◌++◌, Text, Dict, take, drop, length, arith, All, All-append, Bool-cases, inl, inr,
  length-append, if_both, not, ◌&&◌, ◌||◌, text_eq, codes,
}
use mathlib.Core.List.{reverse, reverse-reverse, reverse-append, append-nil}
use credential_proxy.Pii.Span.{Span, Range, overlaps_any}
use credential_proxy.Pii.Address.{
  IpAddress, is_valid_ipv4, is_valid_ipv6, lstrip_marks, rstrip_marks,
}
use credential_proxy.Pii.Checksum.{luhn_ok, id_card_ok}
use credential_proxy.Pii.Custom.{Run, Strikes, rule_hits, run_rules, is_seen, is_taken, is_disabled}
use credential_proxy.Pii.Scan.{
  Found, Dictionary, credential_spans, address_core, unless_reserved, checked_value, place_value,
  context, builtin_hit, add_hit, keep_hits, dict_boundary_ok, dict_type, scan_dict_spans,
  scan_spans,
}
use credential_proxy.Pii.Replace.Pieces.{Fits, slice}

-- `P` holds of the value, if there is one.
data On {A : Type 0} (P : A → Type 0) : Option A → Type 0 where
  on_none : On P none
  on_some : {x : A} → P x → On P (some x)

add_hit-All :
    (P : Span → Type 0) (o : Option Span) (xs : List Span)
    → On P o
    → All P xs
    → All P (add_hit o xs)
add_hit-All P none xs on_none a = a
add_hit-All P (some x) xs (on_some h) a = (h, a)

keep_hits-All :
    (P Q : Span → Type 0) (hit : Span → Option Span)
    → ((m : Span) → Q m → On P (hit m))
    → (ms : List Span) → All Q ms
    → All P (keep_hits hit ms)
unfolding keep_hits
keep_hits-All P Q hit f [] q = tt
keep_hits-All P Q hit f (m ∷ ms) q =
    add_hit-All P (hit m) (keep_hits hit ms) (f m q.0) (keep_hits-All P Q hit f ms q.1)

-- `v` stands at the front of `value`.
abbrev IsPrefix : Text → Text → Type 0
IsPrefix value v = (rest : Text) × (value ≡ v ++ rest)

IsPrefix-refl : (value : Text) → IsPrefix value value
IsPrefix-refl value = ([], sym (append-nil value))

lstrip_marks-suffix : (s : Text) → (front : Text) × (s ≡ front ++ lstrip_marks s)
unfolding lstrip_marks
lstrip_marks-suffix [] = ([], refl)
lstrip_marks-suffix (c ∷ s) =
    if_both (λ t. (front : Text) × (c ∷ s ≡ front ++ t)) _
      (let (front, e) = lstrip_marks-suffix s in (c ∷ front, ap (◌∷◌ c) e)) ([], refl)

rstrip_marks-IsPrefix : (s : Text) → IsPrefix s (rstrip_marks s)
unfolding rstrip_marks
rstrip_marks-IsPrefix s =
    let (front, e) = lstrip_marks-suffix (reverse s) in
    (
      reverse front,
      sym (reverse-reverse s) ∙ ap reverse e ∙ reverse-append front (lstrip_marks (reverse s)),
    )

address_core-IsPrefix :
    (ok : Text → Bool) (value : Text) → On (IsPrefix value) (address_core ok value)
unfolding address_core
address_core-IsPrefix ok value =
    if_both (On (IsPrefix value)) _ (on_some (rstrip_marks-IsPrefix value))
      (if_both (On (IsPrefix value)) _ (on_some (IsPrefix-refl value)) on_none)

unless_reserved-On :
    (P : Text → Type 0) (ip_address : Text → Option IpAddress) (kind : Text) (o : Option Text)
    → On P o
    → On P (unless_reserved ip_address kind o)
unfolding unless_reserved
unless_reserved-On P ip_address kind none h = h
unless_reserved-On P ip_address kind (some v) h = if_both (On P) _ on_none h

-- Whatever the kind, the value that a check lets through is the front of the match.
checked_value-IsPrefix :
    (f : Found) (text : Text) (m : Span) → On (IsPrefix m.value) (checked_value f text m)
unfolding checked_value
checked_value-IsPrefix f text m =
    if_both P (text_eq m.kind (codes "ipv6")) (address (is_valid_ipv6 f.ip_address)) (
      if_both P (text_eq m.kind (codes "ipv4")) (address (is_valid_ipv4 f.ip_address)) (
        if_both P (text_eq m.kind (codes "bank_card"))
          (if_both P (f.in_url_query (context text m)) on_none
            (if_both P (luhn_ok m.value) whole on_none))
          (if_both P (text_eq m.kind (codes "id_card"))
            (if_both P (id_card_ok m.value) whole on_none) whole)))
  where
    P : Option Text → Type 0
    P = On (IsPrefix m.value)

    whole : P (some m.value)
    whole = on_some (IsPrefix-refl m.value)

    address : (ok : Text → Bool) → P (unless_reserved f.ip_address m.kind (address_core ok m.value))
    address ok =
        unless_reserved-On (IsPrefix m.value) f.ip_address m.kind _
          (address_core-IsPrefix ok m.value)

-- A match as `re` reports it: its value stands between its ends.
abbrev pub IsMatch : Text → Span → Type 0
IsMatch text m = (m.start + length m.value ≡ m.stop) × (m.value ≡ slice m.start m.stop text)

pub take_front : (v rest : Text) → take (length v) (v ++ rest) ≡ v
take_front [] rest = refl
take_front (c ∷ v) rest = ap (◌∷◌ c) (take_front v rest)

take-take : (n k : ℕ) (s : Text) → n ≤ k → take n (take k s) ≡ take n s
take-take zero k s h = refl
take-take (suc n) zero s h = absurd (omega arith)
take-take (suc n) (suc k) [] h = refl
take-take (suc n) (suc k) (c ∷ s) h = ap (◌∷◌ c) (take-take n k s (omega arith))

IsPrefix-slice :
    (text : Text) (m : Span) (v : Text)
    → IsMatch text m
    → IsPrefix m.value v
    → Fits text (record m { value = v; stop = m.start + length v })
IsPrefix-slice text m v h (rest, e) = (omega arith, sym (ap (take (length v)) e ∙ front) ∙ cut)
  where
    front : take (length v) (v ++ rest) ≡ v
    front = take_front v rest

    cut : take (length v) m.value ≡ slice m.start (m.start + length v) text
    cut =
        ap (take (length v)) h.1
        ∙ take-take (length v) (m.stop - m.start) (drop m.start text)
            (omega (arith, ap length e, length-append v rest, h.0))
        ∙ ap (λ k. take k (drop m.start text)) (omega arith)

place_value-On :
    (text : Text) (creds : List Range) (m : Span) (o : Option Text)
    → IsMatch text m
    → On (IsPrefix m.value) o
    → On (λ x. Fits text x × (overlaps_any x.start x.stop creds ≡ false)) (place_value creds m o)
unfolding place_value
place_value-On text creds m none h p = on_none
place_value-On text creds m (some v) h (on_some p) =
    elim (Bool-cases (overlaps_any m.start (m.start + length v) creds)) [
      | inl e ↦ rw e on_none
      | inr e ↦ rw e (on_some (IsPrefix-slice text m v h p, e))
    ]

-- What the theorems say of a reported span: it fits the text and overlaps no secret.
abbrev pub IsReport : Text → List Range → Span → Type 0
IsReport text creds x = Fits text x × (overlaps_any x.start x.stop creds ≡ false)

IsMatch-Fits :
    (text : Text) (m : Span) (kind : Text) → IsMatch text m → Fits text (record m { kind = kind })
IsMatch-Fits text m kind h = (omega (arith, h.0), h.1)

builtin_hit-IsReport :
    (f : Found) (text : Text) (creds : List Range) (m : Span)
    → IsMatch text m
    → On (IsReport text creds) (builtin_hit f text creds m)
unfolding builtin_hit
builtin_hit-IsReport f text creds m h =
    if_both (On (IsReport text creds)) _ on_none
      (place_value-On text creds m _ h (checked_value-IsPrefix f text m))

rule_hits-IsReport :
    (name text : Text) (protected creds seen : List Range) (ms : List Span)
    → All (IsMatch text) ms
    → All (IsReport text creds) (rule_hits name protected creds seen ms).0
unfolding rule_hits
rule_hits-IsReport name text protected creds seen [] h = tt
rule_hits-IsReport name text protected creds seen (m ∷ ms) h =
    elim (Bool-cases (is_seen m.start m.stop seen || is_taken protected creds m)) [
      | inl e ↦ rw e (rule_hits-IsReport name text protected creds seen ms h.1)
      | inr e ↦ rw e (
        (IsMatch-Fits text m name h.0, ground arith),
        rule_hits-IsReport name text protected creds ((m.start, m.stop) ∷ seen) ms h.1,
      )
    ]

run_rules-IsReport :
    (text : Text) (protected creds : List Range) (runs : List Run) (seen : List Range)
    (st : Strikes)
    → All (λ r. All (IsMatch text) r.matches) runs
    → All (IsReport text creds) (run_rules protected creds seen runs st).0
unfolding run_rules
run_rules-IsReport text protected creds [] seen st h = tt
run_rules-IsReport text protected creds (run ∷ runs) seen st h =
    All-append (IsReport text creds) _ _
      (if_both (λ (r : List Span × List Range). All (IsReport text creds) r.0)
        (is_disabled run.name st) tt
        (rule_hits-IsReport run.name text protected creds seen run.matches h.0))
      (run_rules-IsReport text protected creds runs _ _ h.1)

scan_dict_spans-IsReport :
    (d : Dictionary) (text : Text) (creds seen : List Range) (ms : List Span)
    → All (IsMatch text) ms
    → All (IsReport text creds) (scan_dict_spans d text creds seen ms)
unfolding scan_dict_spans
scan_dict_spans-IsReport d text creds seen [] h = tt
scan_dict_spans-IsReport d text creds seen (m ∷ ms) h = elim (Bool-cases (keeps)) [
  | inl e ↦ rw e (
    (IsMatch-Fits text m (dict_type d.entries m.value) h.0, ground arith),
    scan_dict_spans-IsReport d text creds _ ms h.1,
  )
  | inr e ↦ rw e (scan_dict_spans-IsReport d text creds _ ms h.1)
]
  where
    keeps : Bool
    keeps =
        not (is_seen m.start m.stop seen)
        && (not (overlaps_any m.start m.stop creds)
            && dict_boundary_ok d.is_alnum d.hardening text m.start m.stop
                (dict_type d.entries m.value))

-- What `re` reports of a text, for every expression, are matches in it.
abbrev pub AreMatches : Text → Found → Type 0
AreMatches text f =
    All (IsMatch text) f.combined
    × (All (λ r. All (IsMatch text) r.matches) f.custom × All (IsMatch text) f.dict)

pub scan_spans-IsReport :
    (f : Found) (d : Dictionary) (p2t : Dict Text) (text : Text) (st : Strikes)
    → AreMatches text f
    → All (IsReport text (credential_spans text p2t)) (scan_spans f d p2t text st).0
unfolding scan_spans
scan_spans-IsReport f d p2t [] st h = tt
scan_spans-IsReport f d p2t (c ∷ s) st h =
    All-append P _ _
      (if_both (All P) f.coarse
        (keep_hits-All P (IsMatch (c ∷ s)) _ (builtin_hit-IsReport f (c ∷ s) _) f.combined h.0) tt)
      (All-append P _ _ (run_rules-IsReport (c ∷ s) f.protected _ f.custom [] st h.1.0)
        (scan_dict_spans-IsReport d (c ∷ s) _ [] f.dict h.1.1))
  where
    P : Span → Type 0
    P = IsReport (c ∷ s) (credential_spans (c ∷ s) p2t)
