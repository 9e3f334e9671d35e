-- ===== src/Metrics/Aggregate/Agree.antt =====
-- The tables per day and per hour of _metrics.py count the same.
use credential_proxy.Prelude.{
  ℕ, ◌+◌, ◌≡◌, refl, sym, ◌∙◌, Bool, true, false, [], ◌∷◌, Text, if◌then◌else◌, text_eq,
  text_eq_iff, arith, Bool-cases, inl, inr,
}
use credential_proxy.Metrics.Counters.{
  Daily, Hourly, new_daily, new_hourly, Table, key_eq, update_at,
}

-- A counter summed over the times of an upstream.
unfoldable pub total : {V : Type 0} → (V → ℕ) → Text → Table V → ℕ
unfolding text_eq
total g u [] = 0
total g u ((k, v) ∷ t) = if text_eq k.1 u then g v + total g u t else total g u t

key_eq-upstream : (k j : Text × Text) → key_eq k j ≡ true → k.1 ≡ j.1
key_eq-upstream k j h = ground (arith, text_eq_iff k.1 j.1)

total-update_at :
    {V : Type 0} (g : V → ℕ) (u : Text) (new : V) (key : Text × Text) (f : V → V) (n : ℕ)
    (t : Table V)
    → g new ≡ 0
    → ((v : V) → g (f v) ≡ g v + n)
    → total g u (update_at new key f t) ≡ total g u t + (if text_eq key.1 u then n else 0)
unfolding total update_at
total-update_at g u new key f n [] z h = elim (Bool-cases (text_eq key.1 u)) [
  | inl e ↦ rw e (omega (arith, h new, z))
  | inr e ↦ rw e (omega arith)
]
total-update_at g u new key f n ((k, v) ∷ t) z h = elim (Bool-cases (key_eq key k)) [
  | inl e ↦
      rw (e, sym (key_eq-upstream key k e))
        (elim (Bool-cases (text_eq key.1 u)) [
          | inl a ↦ rw a (omega (arith, h v))
          | inr a ↦ rw a (omega arith)
        ])
  | inr e ↦ rw e (elim (Bool-cases (text_eq k.1 u)) [
    | inl a ↦ rw a (omega (arith, total-update_at g u new key f n t z h))
    | inr a ↦ rw a (total-update_at g u new key f n t z h)
  ])
]

-- For an upstream, the sums over the days are the sums over the hours.
pub record Agree (u : Text) (daily : Table Daily) (hourly : Table Hourly) : Type 0 where
  pub requests : total (λ d. d.requests) u daily ≡ total (λ h. h.requests) u hourly
  pub pii_hits : total (λ d. d.pii_hits) u daily ≡ total (λ h. h.pii_hits) u hourly
  pub pii_miss : total (λ d. d.pii_miss) u daily ≡ total (λ h. h.pii_miss) u hourly
  pub pii_requests : total (λ d. d.pii_requests) u daily ≡ total (λ h. h.pii_requests) u hourly
  pub cred_lru :
      total (λ d. d.cred_lru_evictions) u daily ≡ total (λ h. h.cred_lru_evictions) u hourly
  pub pii_lru : total (λ d. d.pii_lru_evictions) u daily ≡ total (λ h. h.pii_lru_evictions) u hourly

-- The same amount is added to a counter of the day and of the hour.
update-same :
    (g : Daily → ℕ) (k : Hourly → ℕ) (u day hour up : Text) (f : Daily → Daily)
    (m : Hourly → Hourly) (n : ℕ) (daily : Table Daily) (hourly : Table Hourly)
    → total g u daily ≡ total k u hourly
    → g new_daily ≡ 0
    → k new_hourly ≡ 0
    → ((d : Daily) → g (f d) ≡ g d + n)
    → ((h : Hourly) → k (m h) ≡ k h + n)
    → total g u (update_at new_daily (day, up) f daily)
      ≡ total k u (update_at new_hourly (hour, up) m hourly)
update-same g k u day hour up f m n daily hourly e zg zk a b = omega (
  arith,
  e,
  total-update_at g u new_daily (day, up) f n daily zg a,
  total-update_at k u new_hourly (hour, up) m n hourly zk b,
)

-- What each counter of the two tables grows by, for one change.
pub record Growth (f : Daily → Daily) (m : Hourly → Hourly) : Type 0 where
  pub requests : ℕ
  pub pii_hits : ℕ
  pub pii_miss : ℕ
  pub pii_requests : ℕ
  pub cred_lru : ℕ
  pub pii_lru : ℕ
  pub of_daily :
      (d : Daily)
      → ((f d).requests ≡ d.requests + requests)
        × ((f d).pii_hits ≡ d.pii_hits + pii_hits)
        × ((f d).pii_miss ≡ d.pii_miss + pii_miss)
        × ((f d).pii_requests ≡ d.pii_requests + pii_requests)
        × ((f d).cred_lru_evictions ≡ d.cred_lru_evictions + cred_lru)
        × ((f d).pii_lru_evictions ≡ d.pii_lru_evictions + pii_lru)
  pub of_hourly :
      (h : Hourly)
      → ((m h).requests ≡ h.requests + requests)
        × ((m h).pii_hits ≡ h.pii_hits + pii_hits)
        × ((m h).pii_miss ≡ h.pii_miss + pii_miss)
        × ((m h).pii_requests ≡ h.pii_requests + pii_requests)
        × ((m h).cred_lru_evictions ≡ h.cred_lru_evictions + cred_lru)
        × ((m h).pii_lru_evictions ≡ h.pii_lru_evictions + pii_lru)

pub update-Agree :
    (u day hour up : Text) (f : Daily → Daily) (m : Hourly → Hourly) (daily : Table Daily)
    (hourly : Table Hourly)
    → Growth f m
    → Agree u daily hourly
    → Agree u (update_at new_daily (day, up) f daily) (update_at new_hourly (hour, up) m hourly)
unfolding new_daily new_hourly
update-Agree u day hour up f m daily hourly w a = record {
  requests =
      update-same (λ d. d.requests) (λ h. h.requests) u day hour up f m w.requests daily hourly
        a.requests refl refl (λ d. (w.of_daily d).0) (λ h. (w.of_hourly h).0);
  pii_hits =
      update-same (λ d. d.pii_hits) (λ h. h.pii_hits) u day hour up f m w.pii_hits daily hourly
        a.pii_hits refl refl (λ d. (w.of_daily d).1) (λ h. (w.of_hourly h).1);
  pii_miss =
      update-same (λ d. d.pii_miss) (λ h. h.pii_miss) u day hour up f m w.pii_miss daily hourly
        a.pii_miss refl refl (λ d. (w.of_daily d).2) (λ h. (w.of_hourly h).2);
  pii_requests =
      update-same (λ d. d.pii_requests) (λ h. h.pii_requests) u day hour up f m w.pii_requests daily
        hourly a.pii_requests refl refl (λ d. (w.of_daily d).3) (λ h. (w.of_hourly h).3);
  cred_lru =
      update-same (λ d. d.cred_lru_evictions) (λ h. h.cred_lru_evictions) u day hour up f m
        w.cred_lru daily hourly a.cred_lru refl refl (λ d. (w.of_daily d).4)
        (λ h. (w.of_hourly h).4);
  pii_lru =
      update-same (λ d. d.pii_lru_evictions) (λ h. h.pii_lru_evictions) u day hour up f m w.pii_lru
        daily hourly a.pii_lru refl refl (λ d. (w.of_daily d).5) (λ h. (w.of_hourly h).5);
}

only_zero : (b : Bool) (n : ℕ) → n ≡ 0 → (if b then n else 0) ≡ 0
only_zero true n e = e
only_zero false n e = refl

-- A change of the day alone that leaves the counters of both as they are.
pub daily-Agree :
    (u day up : Text) (f : Daily → Daily) (daily : Table Daily) (hourly : Table Hourly)
    → ((d : Daily)
        → ((f d).requests ≡ d.requests)
          × ((f d).pii_hits ≡ d.pii_hits)
          × ((f d).pii_miss ≡ d.pii_miss)
          × ((f d).pii_requests ≡ d.pii_requests)
          × ((f d).cred_lru_evictions ≡ d.cred_lru_evictions)
          × ((f d).pii_lru_evictions ≡ d.pii_lru_evictions))
    → Agree u daily hourly
    → Agree u (update_at new_daily (day, up) f daily) hourly
unfolding new_daily
daily-Agree u day up f daily hourly w a = record {
  requests = keep (λ d. d.requests) refl (λ d. (w d).0) ∙ a.requests;
  pii_hits = keep (λ d. d.pii_hits) refl (λ d. (w d).1) ∙ a.pii_hits;
  pii_miss = keep (λ d. d.pii_miss) refl (λ d. (w d).2) ∙ a.pii_miss;
  pii_requests = keep (λ d. d.pii_requests) refl (λ d. (w d).3) ∙ a.pii_requests;
  cred_lru = keep (λ d. d.cred_lru_evictions) refl (λ d. (w d).4) ∙ a.cred_lru;
  pii_lru = keep (λ d. d.pii_lru_evictions) refl (λ d. (w d).5) ∙ a.pii_lru;
}
  where
    keep :
        (g : Daily → ℕ)
        → g new_daily ≡ 0
        → ((d : Daily) → g (f d) ≡ g d)
        → total g u (update_at new_daily (day, up) f daily) ≡ total g u daily
    keep g z h = omega (
      arith,
      total-update_at g u new_daily (day, up) f 0 daily z (λ d. omega (arith, h d)),
      only_zero (text_eq up u) 0 refl,
    )
