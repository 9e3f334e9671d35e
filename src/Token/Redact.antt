-- ===== src/Token/Redact.antt =====
-- `_redact` and `_restore` of _token.py, with the version caches of their compiled expressions.
-- A compiled expression and its `repl` dict come from one mapping, so a cache is that mapping.
use credential_proxy.Prelude.{
  ℕ, ◌+◌, ◌≤◌, ◌≡◌, ◌≢◌, refl, sym, ◌∙◌, Bool, true, false, Option, none, some, [], ◌∷◌, Text, Dict,
  if◌then◌else◌, ◌==◌, lookup, lookup-move_to_end, move_to_end, Bool-cases, Option-cases, inl, inr,
  ◌⊎◌, arith,
}
use credential_proxy.Substitute.{substitute}
use credential_proxy.Substitute.Spec.{NoEmptyKey, substitute-Replaced}
use credential_proxy.Substitute.Unique.{SameLookup, Replaced-unique}
use credential_proxy.Token.{Tokens, make_token, register_secret, forget_secrets, mint}
use credential_proxy.Token.Valid.{IsValid, evict_oldest-IsValid, advance-IsValid, token_number}
use credential_proxy.Token.Invariant.{register_secret_cases}

-- `_redact_cache_ver` (`none` where the attribute is not there yet) and `_redact_cache_repl`;
-- the same for `_restore`.
pub record Cache : Type 0 where
  pub version : Option ℕ
  pub repl : Dict Text

-- `getattr(self, '…_cache_ver', -1) != self._token_seq`
abbrev pub is_stale : Option ℕ → ℕ → Bool
is_stale none n = true
is_stale (some v) n = if v == n then false else true

-- The full mapping: nothing to do where it is empty, else the cache is renewed if it is stale.
unfoldable pub cached : Dict Text → ℕ → Text → Cache → Cache × Text
cached [] n text c = (c, text)
cached (e ∷ m) n text c =
    let fresh : Cache =
      if is_stale c.version n then record { version = some n; repl = e ∷ m } else c in
    (fresh, substitute fresh.repl text)

-- `_redact(text)` and `_restore(text)`, and with a mapping that the caller gives.
unfoldable pub redact : Text → Tokens → Cache → Cache × Text
unfolding cached
redact text s c = cached s.pwd_to_token s.token_seq text c

unfoldable pub restore : Text → Tokens → Cache → Cache × Text
unfolding cached
restore text s c = cached s.token_to_pwd s.token_seq text c

abbrev pub redact_with : Dict Text → Text → Text
redact_with = substitute

abbrev pub restore_with : Dict Text → Text → Text
restore_with = substitute

-- A cache is of a past version; one of the present version looks up as the mapping does, which
-- may have been cleared since.
pub record Fits (m : Dict Text) (n : ℕ) (c : Cache) : Type 0 where
  pub past : (v : ℕ) → c.version ≡ some v → v ≤ n
  pub same : c.version ≡ some n → (m ≡ []) ⊎ SameLookup c.repl m

no_cache : Cache
no_cache = record { version = none; repl = [] }

cached-Fits :
    (m : Dict Text) (n : ℕ) (text : Text) (c : Cache) → Fits m n c → Fits m n (cached m n text c).0
unfolding cached
cached-Fits [] n text c f = f
cached-Fits (e ∷ m) n text c f = elim (Bool-cases (is_stale c.version n)) [
  | inl stale ↦ rw stale (record { past = λ v h. ground arith; same = λ h. inr (λ w. refl) })
  | inr current ↦ rw current f
]

stale_false : (o : Option ℕ) (n : ℕ) → is_stale o n ≡ false → o ≡ some n
stale_false none n h = absurd (cc)
stale_false (some v) n h = ground arith

cached_value :
    (m : Dict Text) (n : ℕ) (text : Text) (c : Cache)
    → NoEmptyKey m
    → Fits m n c
    → (cached m n text c).1 ≡ substitute m text
unfolding cached substitute
cached_value [] n text c none_empty f = refl
cached_value (e ∷ m) n text c none_empty f = elim (Bool-cases (is_stale c.version n)) [
  | inl stale ↦ rw stale refl
  | inr current ↦ rw current (elim (f.same (stale_false c.version n current)) [
    | inl cleared ↦ absurd (cc)
    | inr alike ↦
        Replaced-unique c.repl (e ∷ m) alike (alike [] ∙ none_empty)
          (substitute-Replaced c.repl text (alike [] ∙ none_empty))
          (substitute-Replaced (e ∷ m) text none_empty)
  ])
]

pub NoEmptyKey-secrets : (s : Tokens) → IsValid s → NoEmptyKey s.pwd_to_token
NoEmptyKey-secrets s v = elim (Option-cases (lookup [] s.pwd_to_token)) [
  | inl e ↦ e
  | inr (t, e) ↦ absurd (omega (arith, v.long [] t e))
]

make_token-ne-nil : (n : ℕ) → make_token n ≢ []
unfolding make_token
make_token-ne-nil n h = cc

pub NoEmptyKey-tokens : (s : Tokens) → IsValid s → NoEmptyKey s.token_to_pwd
NoEmptyKey-tokens s v = elim (Option-cases (lookup [] s.token_to_pwd)) [
  | inl e ↦ e
  | inr (w, e) ↦
      absurd (make_token-ne-nil (token_number []) (sym (v.minted w [] (v.paired.home [] w e))))
]

-- The caches of both directions fit the tables.
abbrev pub BothFit : Tokens → Cache → Cache → Type 0
BothFit s c d = Fits s.pwd_to_token s.token_seq c × Fits s.token_to_pwd s.token_seq d

-- With valid tables and caches that fit, redaction and restoration give what the present tables
-- say, whether or not a cached expression is used.
pub redact-substitute :
    (text : Text) (s : Tokens) (c d : Cache)
    → IsValid s
    → BothFit s c d
    → ((redact text s c).1 ≡ substitute s.pwd_to_token text)
      × ((restore text s d).1 ≡ substitute s.token_to_pwd text)
unfolding redact restore
redact-substitute text s c d v f = (
  cached_value s.pwd_to_token s.token_seq text c (NoEmptyKey-secrets s v) f.0,
  cached_value s.token_to_pwd s.token_seq text d (NoEmptyKey-tokens s v) f.1,
)

Fits-later : (m m' : Dict Text) (n : ℕ) (c : Cache) → Fits m n c → Fits m' (n + 1) c
Fits-later m m' n c f = record {
  past = λ v h. omega (arith, f.past v h);
  same = λ h. absurd (omega (arith, f.past (n + 1) h));
}

mint_seq : (value : Text) (s : Tokens) → IsValid s → (mint value s).0.token_seq ≡ s.token_seq + 1
unfolding mint
mint_seq value s v =
    (evict_oldest-IsValid (record s { token_seq = s.token_seq + 1 }) (advance-IsValid s v)).2

Fits-moved :
    (value : Text) (m : Dict Text) (n : ℕ) (c : Cache) → Fits m n c → Fits (move_to_end value m) n c
unfolding move_to_end lookup
Fits-moved value m n c f = record {
  past = f.past;
  same = λ h. elim (f.same h) [
    | inl cleared ↦ inl (rw cleared moved_nil)
    | inr alike ↦ inr (λ w. alike w ∙ sym (lookup-move_to_end value w m))
  ];
}
  where
    moved_nil : move_to_end {V = Text} value [] ≡ []
    moved_nil = refl

register_secret-BothFit :
    (value : Text) (s : Tokens) (c d : Cache)
    → IsValid s
    → BothFit s c d
    → BothFit (register_secret value s).0 c d
register_secret-BothFit value s c d v f = elim (register_secret_cases value s) [
  | inl (short, e) ↦ rw e f
  | inr (inl (t, found, e)) ↦ rw e (Fits-moved value s.pwd_to_token s.token_seq c f.0, f.1)
  | inr (inr (inl (absent, bad, e))) ↦ rw e f
  | inr (inr (inr (absent, long, fine, e))) ↦
      rw (e, mint_seq value s v)
        (
          Fits-later s.pwd_to_token _ s.token_seq c f.0,
          Fits-later s.token_to_pwd _ s.token_seq d f.1,
        )
]

-- With valid tables, caches that fit them still fit after any registration, after the tables are
-- cleared and after a redaction or a restoration.
pub BothFit-kept :
    (text : Text) (s : Tokens) (c d : Cache)
    → IsValid s
    → BothFit s c d
    → BothFit (register_secret text s).0 c d
      × BothFit (forget_secrets s) c d
      × BothFit s (redact text s c).0 (restore text s d).0
unfolding forget_secrets redact restore
BothFit-kept text s c d v f = (
  register_secret-BothFit text s c d v f,
  (
    record { past = f.0.past; same = λ h. inl refl },
    record { past = f.1.past; same = λ h. inl refl },
  ),
  (
    cached-Fits s.pwd_to_token s.token_seq text c f.0,
    cached-Fits s.token_to_pwd s.token_seq text d f.1,
  ),
)
