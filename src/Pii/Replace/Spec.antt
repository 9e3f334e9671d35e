-- ===== src/Pii/Replace/Spec.antt =====
-- What `detect_and_redact` of _pii.py gives: the spans it replaces and the secrets it keeps.
use credential_proxy.Prelude.{
  ℕ, ◌+◌, ◌-◌, ◌≤◌, ◌≡◌, refl, sym, ap, ◌∙◌, subst, Bool, true, false, some, List, [], ◌∷◌, ◌++◌,
  Text, Dict, take, length, arith, All, Any, All-mono, Bool-cases, inl, inr, ◌⊎◌, is_some, lookup,
  insert, contains, truthy, starts_with, lookup-insert, lookup-insert_self, text_eq, text_eq_iff,
  drop-length-append, if◌then◌else◌, if_both,
}
use credential_proxy.Pii.Span.{Span, Range, overlaps, overlaps_any}
use credential_proxy.Pii.Custom.{Strikes}
use credential_proxy.Pii.Scan.{Found, Dictionary, occurrences, credential_spans, scan_spans}
use credential_proxy.Pii.Scan.Fits.{AreMatches, IsReport, scan_spans-IsReport, take_front}
use credential_proxy.Pii.Choose.{selected, selected-nil}
use credential_proxy.Pii.Choose.Clear.{
  IsRange, InOrder, Covers, selected-InOrder, selected-Covers, All-selected, any-false,
}
use credential_proxy.Pii.Replace.{
  tokens_of, token_in, put_tokens, rebuild, redact_spans, detect_and_redact,
}
use credential_proxy.Pii.Replace.Pieces.{Fits, Beside, slice, rebuild-values, rebuild_keeps}
use credential_proxy.PiiTokens.{PiiTokens, registered, register, looks_like_token}

-- The value is registered: it is in the table, with whatever token.
abbrev pub IsKnown : Dict Text → Span → Type 0
IsKnown table x = is_some (lookup x.value table) ≡ true

register_succeeds :
    (value rand8 : Text) (side : Bool) (s : PiiTokens)
    → looks_like_token value ≡ false
    → (tok : Text) × ((register value rand8 side s).1 ≡ registered tok)
unfolding register
register_succeeds value rand8 side s h = elim (Bool-cases (truthy value)) [
  | inl e ↦ rw (e, h) (_, refl)
  | inr e ↦ rw e (value, refl)
]

IsKnown-insert :
    (k tok : Text) (table : Dict Text) (x : Span) → IsKnown table x → IsKnown (insert k tok table) x
IsKnown-insert k tok table x h = ground (arith, lookup-insert k x.value tok table)

-- A state that calls of `register` with random parts of `rand` reach from `s`.
pub data Registers (side : Bool) (rand : ℕ → Text) (s : PiiTokens) : PiiTokens → Type 0 where
  here : Registers side rand s s
  next :
      (value : Text) (n : ℕ) (t : PiiTokens)
      → Registers side rand s t
      → Registers side rand s (register value (rand n) side t).0

-- The token of the value in the table is the one that `register` answers for this value, called in
-- a state that registrations reach from `s`.
pub data IsIssued (side : Bool) (rand : ℕ → Text) (s : PiiTokens) (table : Dict Text)
    : Text → Type 0 where
  issued_in :
      (value tok : Text) (n : ℕ) (t : PiiTokens)
      → Registers side rand s t
      → (register value (rand n) side t).1 ≡ registered tok
      → lookup value table ≡ some tok
      → IsIssued side rand s table value

module _ (side : Bool) (rand : ℕ → Text) (s : PiiTokens) where
  abbrev AllIssued : Dict Text → Type 0
  AllIssued table = (v : Text) → is_some (lookup v table) ≡ true → IsIssued side rand s table v

  IsIssued-insert :
      (k tok : Text) (table : Dict Text) (v : Text)
      → contains k table ≡ false
      → IsIssued side rand s table v
      → IsIssued side rand s (insert k tok table) v
  IsIssued-insert k tok table _ c (issued_in v old n t r e l) =
      issued_in v old n t r e (elim (Bool-cases (text_eq v k)) [
        | inl h ↦
            absurd
              (ground (arith, subst (λ w. lookup w table ≡ some old) ((text_eq_iff v k).0 h) l))
        | inr h ↦ rw (lookup-insert k v tok table, h) l
      ])

  AllIssued-insert :
      (k tok : Text) (table : Dict Text) (n : ℕ) (t : PiiTokens)
      → contains k table ≡ false
      → Registers side rand s t
      → (register k (rand n) side t).1 ≡ registered tok
      → AllIssued table
      → AllIssued (insert k tok table)
  AllIssued-insert k tok table n t c r e all v l = elim (Bool-cases (text_eq v k)) [
    | inl h ↦
        subst (IsIssued side rand s (insert k tok table)) (sym ((text_eq_iff v k).0 h))
          (issued_in k tok n t r e (rw lookup-insert_self refl))
    | inr h ↦ IsIssued-insert k tok table v c (all v (rw (lookup-insert k v tok table, h) at l))
  ]

  -- The loop ends with a table that has every value, and everything it had.
  tokens_of-IsKnown :
      (xs : List Span) (n : ℕ) (table : Dict Text) (t : PiiTokens)
      → All (λ x. looks_like_token x.value ≡ false) xs
      → Registers side rand s t
      → AllIssued table
      → (final : Dict Text) × (((tokens_of side rand n xs table t).1 ≡ some final)
          × (AllIssued final
              × (All (IsKnown final) xs × ((x : Span) → IsKnown table x → IsKnown final x))))
  unfolding tokens_of
  tokens_of-IsKnown [] n table t h g i = (table, (refl, (i, (tt, λ x k. k))))
  tokens_of-IsKnown (x ∷ xs) n table t h g i = elim (Bool-cases (contains x.value table)) [
    | inl e ↦
        let (final, (q, (j, (a, keep)))) = tokens_of-IsKnown xs n table t h.1 g i in
        (final, (rw e q, (j, ((keep x e, a), keep))))
    | inr e ↦
        let (tok, r) = register_succeeds x.value (rand n) side t h.0 in
        let (final, (q, (j, (a, keep)))) =
          tokens_of-IsKnown xs (n + 1) (insert x.value tok table)
            (register x.value (rand n) side t).0 h.1 (next x.value n t g)
            (AllIssued-insert x.value tok table n t e g r i) in
        (
          final,
          (
            rw (e, r) q,
            (
              j,
              (
                (keep x (rw lookup-insert_self refl), a),
                λ y k. keep y (IsKnown-insert x.value tok table y k),
              ),
            ),
          ),
        )
  ]

-- The text in which the selected spans, and nothing else, are replaced by their tokens: the values
-- put back give the text, no span reaches into the next, each span found is overlapped by one
-- selected that is no shorter, and the token of each selected value is the one issued for it.
pub record Redacted (side : Bool) (rand : ℕ → Text) (s : PiiTokens) (text : Text)
    (spans : List Span) (table : Dict Text) (out : Text) : Type 0 where
  pub is_rebuilt : out ≡ rebuild (token_in table) 0 text (selected spans)
  pub gives_back : rebuild (λ x. x.value) 0 text (selected spans) ≡ text
  pub in_order : InOrder (selected spans)
  pub covered : All (λ x. Any (Covers x) (selected spans)) spans
  pub issued : All (λ x. IsIssued side rand s table x.value) (selected spans)

All-zero : (xs : List Span) → All (λ x. 0 ≤ x.start) xs
All-zero [] = tt
All-zero (x ∷ xs) = (omega arith, All-zero xs)

redact_spans-Redacted :
    (side : Bool) (rand : ℕ → Text) (text : Text) (spans : List Span) (s : PiiTokens)
    → All (Fits text) spans
    → All (λ x. looks_like_token x.value ≡ false) spans
    → (table : Dict Text) × (out : Text) × ((redact_spans side rand text spans s).1 ≡ some out)
      × Redacted side rand s text spans table out
unfolding redact_spans put_tokens rebuild lookup
redact_spans-Redacted side rand text [] s f h = (
  [],
  text,
  refl,
  record {
    is_rebuilt = rw selected-nil refl;
    gives_back = rw selected-nil refl;
    in_order = rw selected-nil tt;
    covered = tt;
    issued = rw selected-nil tt;
  },
)
redact_spans-Redacted side rand text (x ∷ xs) s f h =
    let (table, (q, (all, (known, keep)))) =
      tokens_of-IsKnown side rand s chosen 0 [] s clean here none_issued in
    (
      table,
      rebuild (token_in table) 0 text chosen,
      ap (put_tokens text chosen) q,
      record {
        is_rebuilt = refl;
        gives_back = rebuild-values 0 text chosen fits order (All-zero chosen);
        in_order = order;
        covered = selected-Covers (x ∷ xs);
        issued = All-mono _ _ (λ x k. all x.value k) chosen known;
      },
    )
  where
    chosen : List Span
    chosen = selected (x ∷ xs)

    fits : All (Fits text) chosen
    fits = All-selected (Fits text) (x ∷ xs) f

    order : InOrder chosen
    order = selected-InOrder (x ∷ xs) (All-mono _ IsRange (λ y q. q.0) (x ∷ xs) f)

    none_issued : (v : Text) → is_some (lookup {V = Text} v []) ≡ true → IsIssued side rand s [] v
    none_issued v h = absurd (cc)

    clean : All (λ y. looks_like_token y.value ≡ false) chosen
    clean = All-selected (λ y. looks_like_token y.value ≡ false) (x ∷ xs) h

-- `detect_and_redact` succeeds when no value found looks like a token, for any answers of `re` and
-- `ipaddress` whose matches stand in the text. Its result is the text in which the selected spans
-- are replaced by the tokens of their values, where the token of a value is the one that `register`
-- answers for it in a state reached from the given one by registrations. The values put back give
-- the text; no span reaches into the next; and each span that the scan found is overlapped by a
-- selected one that is no shorter.
pub detect_and_redact-Redacted :
    (f : Found) (d : Dictionary) (p2t : Dict Text) (side : Bool) (rand : ℕ → Text) (text : Text)
    (st : Strikes) (s : PiiTokens)
    → AreMatches text f
    → All (λ x. looks_like_token x.value ≡ false) (scan_spans f d p2t text st).0
    → (table : Dict Text) × (out : Text) × ((detect_and_redact f d p2t side rand text st s).2
        ≡ some out)
      × Redacted side rand s text (scan_spans f d p2t text st).0 table out
unfolding detect_and_redact
detect_and_redact-Redacted f d p2t side rand text st s m h =
    redact_spans-Redacted side rand text (scan_spans f d p2t text st).0 s
      (All-mono _ (Fits text) (λ x r. r.0) _ (scan_spans-IsReport f d p2t text st m)) h

starts_with-append : (w s : Text) → starts_with (w ++ s) w ≡ true
unfolding starts_with
starts_with-append [] s = refl
starts_with-append (c ∷ w) s = ground (arith, starts_with-append w s)

Any-append : {A : Type 0} (P : A → Type 0) (xs ys : List A) → Any P xs ⊎ Any P ys → Any P (xs ++ ys)
Any-append P [] ys (inl a) = absurd a
Any-append P [] ys (inr b) = b
Any-append P (x ∷ xs) ys (inl (inl a)) = inl a
Any-append P (x ∷ xs) ys (inl (inr a)) = inr (Any-append P xs ys (inl a))
Any-append P (x ∷ xs) ys (inr b) = inr (Any-append P xs ys (inr b))

occurrences-here :
    (c : ℕ) (w before after : Text) (i : ℕ)
    → Any
        (λ r. r ≡ (i + length before, i + length before + length (c ∷ w)))
        (occurrences (c ∷ w) i (before ++ ((c ∷ w) ++ after)))
unfolding occurrences
occurrences-here c w [] after i = rw (starts_with-append (c ∷ w) after) (inl (ap at same))
  where
    at : ℕ → Range
    at k = (k, k + length (c ∷ w))

    same : i ≡ i + length {A = ℕ} []
    same = omega arith
occurrences-here c w (b ∷ before) after i =
    let later : Any P (occurrences (c ∷ w) (i + 1) (before ++ ((c ∷ w) ++ after))) =
      subst
        (λ k.
          Any (λ r. r ≡ (k, k + length (c ∷ w)))
            (occurrences (c ∷ w) (i + 1) (before ++ ((c ∷ w) ++ after))))
        moved (occurrences-here c w before after (i + 1)) in
    if_both (Any P) (starts_with (b ∷ (before ++ ((c ∷ w) ++ after))) (c ∷ w)) (inr later) later
  where
    P : Range → Type 0
    P r = r ≡ (i + length (b ∷ before), i + length (b ∷ before) + length (c ∷ w))

    moved : (i + 1 + length before) ≡ (i + length (b ∷ before))
    moved = omega arith

credential_spans-here :
    (c : ℕ) (w before after tok : Text) (p2t : Dict Text)
    → lookup (c ∷ w) p2t ≡ some tok
    → Any
        (λ r. r ≡ (length before, length before + length (c ∷ w)))
        (credential_spans (before ++ ((c ∷ w) ++ after)) p2t)
unfolding credential_spans lookup
credential_spans-here c w before after tok [] h = absurd (cc)
credential_spans-here c w before after tok ((k, v) ∷ p2t) h =
    elim (Bool-cases (text_eq (c ∷ w) k)) [
      | inl e ↦
          subst (λ q. Any P (if truthy q then occurrences q 0 text ++ rest else rest))
            ((text_eq_iff (c ∷ w) k).0 e)
            (Any-append P (occurrences (c ∷ w) 0 text) rest (
              inl (
                subst (λ n. Any (λ r. r ≡ (n, n + length (c ∷ w))) (occurrences (c ∷ w) 0 text))
                  (omega arith) (occurrences-here c w before after 0))))
      | inr e ↦
          let later = credential_spans-here c w before after tok p2t (rw e at h) in
          if_both (Any P) (truthy k) (Any-append P (occurrences k 0 text) rest (inr later)) later
    ]
  where
    text : Text
    text = before ++ ((c ∷ w) ++ after)

    rest : List Range
    rest = credential_spans text p2t

    P : Range → Type 0
    P r = r ≡ (length before, length before + length (c ∷ w))

-- A span that does not overlap a range that is not empty lies beside it.
Beside-of :
    (a b : ℕ) (x : Span)
    → a + 1 ≤ b
    → x.start ≤ x.stop
    → overlaps x.start x.stop (a, b) ≡ false
    → Beside (a, b) x
unfolding overlaps
Beside-of a b x h k e = ground arith

Beside-of_Any :
    (a b : ℕ) (x : Span) (rs : List Range)
    → a + 1 ≤ b
    → x.start ≤ x.stop
    → overlaps_any x.start x.stop rs ≡ false
    → Any (λ r. r ≡ (a, b)) rs
    → Beside (a, b) x
unfolding overlaps_any
Beside-of_Any a b x rs h k e i =
    Beside-of a b x h k (any-false (overlaps x.start x.stop) (a, b) rs e i)

-- `w` stands in the text.
abbrev pub StandsIn : Text → Text → Type 0
StandsIn w text = (before : Text) × (after : Text) × (text ≡ before ++ (w ++ after))

tokens_kept :
    (token : Span → Text) (c : ℕ) (w before after : Text) (p2t : Dict Text) (tok : Text)
    (xs : List Span)
    → lookup (c ∷ w) p2t ≡ some tok
    → InOrder xs
    → All
        (IsReport
          (before ++ ((c ∷ w) ++ after))
          (credential_spans (before ++ ((c ∷ w) ++ after)) p2t))
        xs
    → StandsIn (c ∷ w) (rebuild token 0 (before ++ ((c ∷ w) ++ after)) xs)
tokens_kept token c w before after p2t tok xs h o r =
    let (front, back, e) = rebuild_keeps token 0 a b text xs (omega arith) (omega arith) o beside in
    (front, back, e ∙ ap (λ t. front ++ (t ++ back)) same)
  where
    text : Text
    text = before ++ ((c ∷ w) ++ after)

    a : ℕ
    a = length before

    b : ℕ
    b = length before + length (c ∷ w)

    beside : All (Beside (a, b)) xs
    beside =
        All-mono _ _
          (λ x q.
            Beside-of_Any a b x (credential_spans text p2t) (omega arith) q.0.0 q.1
              (credential_spans-here c w before after tok p2t h))
          xs r

    same : slice a b text ≡ c ∷ w
    same =
        ap (take (b - a)) (drop-length-append before ((c ∷ w) ++ after))
        ∙ ap (λ k. take k ((c ∷ w) ++ after)) (let e : b - a ≡ length (c ∷ w) = omega arith in e)
        ∙ take_front (c ∷ w) after

-- The redaction of personal data never damages a secret: wherever a secret of the table stands in
-- the text, it stands in the result of `detect_and_redact` too, whatever the matches overlap, if
-- no value found looks like a token.
pub detect_and_redact_keeps_secret :
    (f : Found) (d : Dictionary) (p2t : Dict Text) (side : Bool) (rand : ℕ → Text) (c : ℕ)
    (w before after tok : Text) (st : Strikes) (s : PiiTokens)
    → let text = before ++ ((c ∷ w) ++ after) in
      lookup (c ∷ w) p2t ≡ some tok
      → AreMatches text f
      → All (λ x. looks_like_token x.value ≡ false) (scan_spans f d p2t text st).0
      → (out : Text) × ((detect_and_redact f d p2t side rand text st s).2 ≡ some out)
        × StandsIn (c ∷ w) out
detect_and_redact_keeps_secret f d p2t side rand c w before after tok st s h m l =
    let (table, out, e, r) = detect_and_redact-Redacted f d p2t side rand text st s m l in
    (
      out,
      e,
      subst (StandsIn (c ∷ w)) (sym r.is_rebuilt) (
          tokens_kept (token_in table) c w before after p2t tok (selected found) h r.in_order (
            All-selected (IsReport text (credential_spans text p2t)) found
              (scan_spans-IsReport f d p2t text st m))),
    )
  where
    text : Text
    text = before ++ ((c ∷ w) ++ after)

    found : List Span
    found = (scan_spans f d p2t text st).0
