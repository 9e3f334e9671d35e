-- ===== src/Admin/Limit/Step.antt =====
-- One call of `_RateLimiter.allow` of _admin.py, on the table and on the log.
use credential_proxy.Prelude.{
  ℕ, ◌-◌, ◌<◌, ◌≡◌, refl, sym, ap, ◌∙◌, subst, Bool, true, false, List, [], ◌∷◌, ◌++◌, Text, ltb,
  leb, length, if◌then◌else◌, erase, contains, text_eq, text_eq_iff, arith, Bool-cases, inl, inr,
  Unique, insert-Unique, erase-Unique, if_both,
}
use credential_proxy.Admin.Limit.{
  RateLimiter, Verdict, allowed, refused, index_error, recent, hits_of, sweep, swept, is_due,
  decide, allow,
}
use credential_proxy.Admin.Limit.Log.{
  Log, granted, note, IsRising, recent-IsRising, recent-recent, recent-append, stale-recent,
  IsRising-snoc, hits_of-insert, hits_of-erase, sweep-Unique, hits_of-sweep, Stands,
}

pub sweep-Stands :
    (now : ℕ) (r : RateLimiter) (log : Log)
    → Stands now r log
    → Stands now (record r { hits = sweep (now - r.window_s) r.hits }) log
unfolding recent
sweep-Stands now r log s = record {
  unique = sweep-Unique (now - r.window_s) r.hits s.unique;
  same = λ key. elim (hits_of-sweep (now - r.window_s) key r.hits s.unique) [
    | inl e ↦ ap (recent r.window_s now) e ∙ s.same key
    | inr (e, stale) ↦
        ap (recent r.window_s now) e
        ∙ sym (stale-recent r.window_s now (hits_of key r.hits) (s.rising key) stale)
        ∙ s.same key
  ];
  rising = λ key. elim (hits_of-sweep (now - r.window_s) key r.hits s.unique) [
    | inl e ↦ rw e (s.rising key)
    | inr (e, stale) ↦ rw e tt
  ];
}

pub swept-Stands :
    (now : ℕ) (r : RateLimiter) (log : Log) → Stands now r log → Stands now (swept now r) log
unfolding swept
swept-Stands now r log s =
    if_both (λ q. Stands now q log) (is_due now r)
      (let t = sweep-Stands now r log s in
        record { unique = t.unique; same = t.same; rising = t.rising })
      (record { unique = s.unique; same = s.same; rising = s.rising })

pub swept-window : (now : ℕ) (r : RateLimiter) → (swept now r).window_s ≡ r.window_s
unfolding swept
swept-window now r = if_both (λ (q : RateLimiter). q.window_s ≡ r.window_s) (is_due now r) refl refl

pub swept-limit : (now : ℕ) (r : RateLimiter) → (swept now r).limit ≡ r.limit
unfolding swept
swept-limit now r = if_both (λ (q : RateLimiter). q.limit ≡ r.limit) (is_due now r) refl refl

abbrev pub is_allowed : Verdict → Bool
is_allowed allowed = true
is_allowed (refused n) = false
is_allowed index_error = false

-- What `decide` stores for the key: the recent times, with `now` if the call goes through.
pub record Decided (key : Text) (now : ℕ) (r : RateLimiter) (ts : List ℕ)
    (out : RateLimiter × Verdict) : Type 0 where
  pub verdict : is_allowed out.1 ≡ ltb (length ts) r.limit
  pub stored :
      (j : Text)
      → hits_of j out.0.hits ≡ (
          if text_eq j key
          then (if ltb (length ts) r.limit then ts ++ (now ∷ []) else ts)
          else hits_of j r.hits)
  pub unique : Unique out.0.hits
  pub window : out.0.window_s ≡ r.window_s
  pub limit : out.0.limit ≡ r.limit

pub decide-Decided :
    (key : Text) (now : ℕ) (r : RateLimiter) (ts : List ℕ)
    → 0 < r.limit
    → Unique r.hits
    → Decided key now r ts (decide key now r ts)
unfolding decide
decide-Decided key now r [] h u = elim (Bool-cases (contains key r.hits)) [
  | inl e ↦ rw e (record {
    verdict = ground arith;
    stored = λ j.
        ground
          (arith, hits_of-insert key j (now ∷ []) (erase key r.hits), hits_of-erase key j r.hits);
    unique = insert-Unique key (now ∷ []) (erase key r.hits) (erase-Unique key r.hits u);
    window = refl;
    limit = refl;
  })
  | inr e ↦
      rw (e, let z : leb r.limit 0 ≡ false = ground arith in z)
        (record {
          verdict = ground arith;
          stored = λ j. ground (arith, hits_of-insert key j (now ∷ []) r.hits);
          unique = insert-Unique key (now ∷ []) r.hits u;
          window = refl;
          limit = refl;
        })
]
decide-Decided key now r (t ∷ ts) h u = elim (Bool-cases (leb r.limit (length (t ∷ ts)))) [
  | inl e ↦ rw e (record {
    verdict = ground arith;
    stored = λ j. ground (arith, hits_of-insert key j (t ∷ ts) r.hits);
    unique = insert-Unique key (t ∷ ts) r.hits u;
    window = refl;
    limit = refl;
  })
  | inr e ↦ rw e (record {
    verdict = ground arith;
    stored = λ j. ground (arith, hits_of-insert key j (t ∷ (ts ++ (now ∷ []))) r.hits);
    unique = insert-Unique key (t ∷ (ts ++ (now ∷ []))) r.hits u;
    window = refl;
    limit = refl;
  })
]

pub recent-also :
    (window now : ℕ) (ts log us : List ℕ)
    → recent window now ts ≡ recent window now log
    → recent window now (recent window now ts ++ us) ≡ recent window now (log ++ us)
recent-also window now ts log us e =
    recent-append window now (recent window now ts) us
    ∙ ap (λ t. t ++ recent window now us) (recent-recent window now now ts (omega arith) ∙ e)
    ∙ sym (recent-append window now log us)

-- What is stored stands for the log with the call in it, if the call goes through.
pub Decided-Stands :
    (key : Text) (now : ℕ) (q : RateLimiter) (log : Log) (out : RateLimiter × Verdict) (ok : Bool)
    → Stands now q log
    → Decided key now q (recent q.window_s now (hits_of key q.hits)) out
    → ltb (length (recent q.window_s now (hits_of key q.hits))) q.limit ≡ ok
    → Stands now out.0 (if ok then note key now log else log)
Decided-Stands key now q log out true s d e = record {
  unique = d.unique;
  same = λ j. rw d.window (elim (Bool-cases (text_eq j key)) [
    | inl at ↦
        rw (d.stored j, e, at)
          (subst
            (λ k.
              recent q.window_s now (ts ++ (now ∷ []))
              ≡ recent q.window_s now (log k ++ (now ∷ [])))
            (sym ((text_eq_iff j key).0 at))
            (recent-also q.window_s now (hits_of key q.hits) (log key) (now ∷ []) (s.same key)))
    | inr off ↦ rw (d.stored j, off) (s.same j)
  ]);
  rising = λ j. elim (Bool-cases (text_eq j key)) [
    | inl at ↦ rw (d.stored j, e, at) (IsRising-snoc now ts rises)
    | inr off ↦ rw (d.stored j, off) (s.rising j)
  ];
}
  where
    ts : List ℕ
    ts = recent q.window_s now (hits_of key q.hits)

    rises : IsRising now ts
    rises = recent-IsRising q.window_s now (hits_of key q.hits) (s.rising key)
Decided-Stands key now q log out false s d e = record {
  unique = d.unique;
  same = λ j. rw d.window (elim (Bool-cases (text_eq j key)) [
    | inl at ↦
        rw (d.stored j, e, at)
          (recent-recent q.window_s now now (hits_of key q.hits) (omega arith)
            ∙ subst (λ k. recent q.window_s now (hits_of k q.hits) ≡ recent q.window_s now (log j))
                ((text_eq_iff j key).0 at) (s.same j))
    | inr off ↦ rw (d.stored j, off) (s.same j)
  ]);
  rising = λ j. elim (Bool-cases (text_eq j key)) [
    | inl at ↦
        rw (d.stored j, e, at) (recent-IsRising q.window_s now (hits_of key q.hits) (s.rising key))
    | inr off ↦ rw (d.stored j, off) (s.rising j)
  ];
}

-- One call: the answer of the log, and the log with the call in it.
pub record Answers (key : Text) (now : ℕ) (r : RateLimiter) (log : Log)
    (out : RateLimiter × Verdict) : Type 0 where
  pub answer : is_allowed out.1 ≡ granted r.limit r.window_s key now log
  pub stands :
      Stands now out.0 (if granted r.limit r.window_s key now log then note key now log else log)
  pub window : out.0.window_s ≡ r.window_s
  pub limit : out.0.limit ≡ r.limit

pub Decided-Answers :
    (key : Text) (now : ℕ) (q : RateLimiter) (log : Log) (out : RateLimiter × Verdict)
    → Stands now q log
    → Decided key now q (recent q.window_s now (hits_of key q.hits)) out
    → Answers key now q log out
Decided-Answers key now q log out s d =
    let e : ltb (length (recent q.window_s now (hits_of key q.hits))) q.limit
        ≡ granted q.limit q.window_s key now log =
      ap (λ ts. ltb (length ts) q.limit) (s.same key) in
    record {
      answer = d.verdict ∙ e;
      stands = Decided-Stands key now q log out _ s d e;
      window = d.window;
      limit = d.limit;
    }

pub allow-Answers :
    (key : Text) (now : ℕ) (r : RateLimiter) (log : Log)
    → 0 < r.limit
    → Stands now r log
    → Answers key now r log (allow key now r)
unfolding allow
allow-Answers key now r log h s =
    let q = swept now r in
    let sq = swept-Stands now r log s in
    let a = Decided-Answers key now q log _ sq (
      decide-Decided key now q (recent q.window_s now (hits_of key q.hits))
        (rw (swept-limit now r) h) sq.unique) in
    let moved : granted q.limit q.window_s key now log ≡ granted r.limit r.window_s key now log =
      rw (swept-limit now r, swept-window now r) refl in
    record {
      answer = a.answer ∙ moved;
      stands =
          subst (λ ok. Stands now (allow key now r).0 (if ok then note key now log else log)) moved
            a.stands;
      window = a.window ∙ swept-window now r;
      limit = a.limit ∙ swept-limit now r;
    }
