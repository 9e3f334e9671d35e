-- ===== src/Metrics/Queue/Accounts.antt =====
-- Where the snapshots of the queue of _metrics.py go.
use credential_proxy.Prelude.{
  ℕ, ◌+◌, ◌≤◌, ◌<◌, ◌≡◌, refl, sym, ap, subst, ◌∙◌, false, List, [], ◌∷◌, length, length-append,
  arith, Bool-cases, inl, inr, ◌⊎◌,
}
use credential_proxy.Metrics.Queue.{
  Commit, committed, failed, given_up, Snapshots, write_flush, drain_queue, is_full, put,
  drop_oldest, enqueue, enqueue_all, Step, flush, drain, run, handed,
}

module _ {A : Type 0} where
  -- Written, not written for an error or for a database that was given up, queued, or counted as
  -- dropped.
  abbrev pub accounted : Snapshots A → ℕ
  accounted q = length q.written + (length q.unwritten + (length q.queue + q.dropped))

  -- From `p` to `q`, `n` items came in; each drop that found nothing is counted too much. The bound is
  -- kept, and nothing is written once the database is given up.
  pub record Accounts (n : ℕ) (p q : Snapshots A) : Type 0 where
    pub items : accounted q + p.found_empty ≡ accounted p + n + q.found_empty
    pub bound : q.maxsize ≡ p.maxsize
    pub stays_off : p.sqlite_ok ≡ false → (q.sqlite_ok ≡ false) × (q.written ≡ p.written)

  Accounts-trans :
      {k n m : ℕ} {p q r : Snapshots A}
      → Accounts n p q
      → Accounts m q r
      → k ≡ n + m
      → Accounts k p r
  Accounts-trans a b e = record {
    items = omega (arith, a.items, b.items, e);
    bound = b.bound ∙ a.bound;
    stays_off = λ h. let (s, w) = a.stays_off h in let (t, x) = b.stays_off s in (t, x ∙ w);
  }

  -- The item went to one of the two lists.
  write_flush-Accounts :
      (c : Commit) (a : A) (rest : List A) (q : Snapshots A)
      → q.queue ≡ a ∷ rest
      → let r = write_flush c a (record q { queue = rest }) in Accounts 0 q r × (r.queue ≡ rest)
  unfolding write_flush
  write_flush-Accounts committed a rest q e = elim (Bool-cases q.sqlite_ok) [
    | inl ok ↦ rw ok (
      record {
        items = omega (arith, ap length e, length-append q.written (a ∷ []));
        bound = refl;
        stays_off = λ h. absurd (cc);
      },
      refl,
    )
    | inr off ↦ rw off (
      record {
        items = omega (arith, ap length e, length-append q.unwritten (a ∷ []));
        bound = refl;
        stays_off = λ h. (h, refl);
      },
      refl,
    )
  ]
  write_flush-Accounts failed a rest q e = (
    record {
      items = omega (arith, ap length e, length-append q.unwritten (a ∷ []));
      bound = refl;
      stays_off = λ h. (h, refl);
    },
    refl,
  )
  write_flush-Accounts given_up a rest q e = (
    record {
      items = omega (arith, ap length e, length-append q.unwritten (a ∷ []));
      bound = refl;
      stays_off = λ h. (refl, refl);
    },
    refl,
  )

  Accounts-refl : (q : Snapshots A) → Accounts 0 q q
  Accounts-refl q = record { items = omega arith; bound = refl; stays_off = λ h. (h, refl) }

  abbrev Drained : Snapshots A → Snapshots A → Type 0
  Drained q r = Accounts 0 q r × (length r.queue ≤ length q.queue)

  drain_queue-nil :
      (c : Commit) (cs : List Commit) (q : Snapshots A) → q.queue ≡ [] → drain_queue (c ∷ cs) q ≡ q
  unfolding drain_queue
  drain_queue-nil c cs q e = rw e refl

  drain_queue-cons :
      (c : Commit) (cs : List Commit) (a : A) (rest : List A) (q : Snapshots A)
      → q.queue ≡ a ∷ rest
      → drain_queue (c ∷ cs) q ≡ drain_queue cs (write_flush c a (record q { queue = rest }))
  unfolding drain_queue
  drain_queue-cons c cs a rest q e = rw e refl

  List-cases : (xs : List A) → (xs ≡ []) ⊎ ((x : A) × (rest : List A) × (xs ≡ x ∷ rest))
  List-cases [] = inl refl
  List-cases (x ∷ rest) = inr (x, rest, refl)

  drain_queue-Accounts : (cs : List Commit) (q : Snapshots A) → Drained q (drain_queue cs q)
  unfolding drain_queue
  drain_queue-Accounts [] q = (Accounts-refl q, omega arith)
  drain_queue-Accounts (c ∷ cs) q = elim (List-cases q.queue) [
    | inl e ↦ subst (Drained q) (sym (drain_queue-nil c cs q e)) (Accounts-refl q, omega arith)
    | inr (a, rest, e) ↦
        let next = write_flush c a (record q { queue = rest }) in
        let (first, same) = write_flush-Accounts c a rest q e in
        let (later, shorter) = drain_queue-Accounts cs next in
        subst (Drained q) (sym (drain_queue-cons c cs a rest q e)) (
          Accounts-trans first later (omega arith),
          omega (arith, shorter, ap length same, ap length e),
        )
  ]

  drop_oldest-Accounts :
      (q : Snapshots A)
      → Accounts 0 q (drop_oldest q)
        × (0 < q.maxsize
            → length q.queue ≤ q.maxsize
            → length (drop_oldest q).queue < (drop_oldest q).maxsize)
  unfolding drop_oldest
  drop_oldest-Accounts q = elim (List-cases q.queue) [
    | inl e ↦
        rw (e, drop_oldest)
          (
            record { items = omega (arith, ap length e); bound = refl; stays_off = λ h. (h, refl) },
            λ h k. omega (arith, h, ap length e),
          )
    | inr (a, rest, e) ↦
        rw (e, drop_oldest)
          (record { items = omega arith; bound = refl; stays_off = λ h. (h, refl) }, λ h k. k)
  ]

  -- Between two states of a bounded queue: the items are accounted for, and it keeps its bound.
  pub record Keeps (n : ℕ) (p q : Snapshots A) : Type 0 where
    pub accounts : Accounts n p q
    pub fits : length q.queue ≤ q.maxsize

  put-Keeps : (a : A) (q : Snapshots A) → length q.queue < q.maxsize → Keeps 1 q (put a q)
  put-Keeps a q h = record {
    accounts = record {
      items = omega (arith, length-append q.queue (a ∷ []));
      bound = refl;
      stays_off = λ h. (h, refl);
    };
    fits = omega (arith, h, length-append q.queue (a ∷ []));
  }

  is_full-false : (q : Snapshots A) → length q.queue < q.maxsize → is_full q ≡ false
  is_full-false q h = ground arith

  is_full_room : (q : Snapshots A) → 0 < q.maxsize → is_full q ≡ false → length q.queue < q.maxsize
  is_full_room q h e = ground arith

  enqueue-Keeps :
      (meanwhile : List Commit) (a : A) (q : Snapshots A)
      → 0 < q.maxsize
      → length q.queue ≤ q.maxsize
      → Keeps 1 q (enqueue meanwhile a q)
  unfolding enqueue
  enqueue-Keeps meanwhile a q h k = elim (Bool-cases (is_full q)) [
    | inr e ↦ rw e (put-Keeps a q (is_full_room q h e))
    | inl e ↦
        let d = drain_queue meanwhile q in
        let r = drop_oldest d in
        let (first, shorter) = drain_queue-Accounts meanwhile q in
        let (second, room) = drop_oldest-Accounts d in
        let lower = room (omega (arith, h, first.bound)) (omega (arith, k, shorter, first.bound)) in
        let last = put-Keeps a r lower in
        rw (e, is_full-false r lower)
          (record {
            accounts =
                Accounts-trans first (Accounts-trans {k = 1} second last.accounts (omega arith))
                  (omega arith);
            fits = last.fits;
          })
  ]

  enqueue_all-Keeps :
      (snapshot : List (A × List Commit)) (q : Snapshots A)
      → 0 < q.maxsize
      → length q.queue ≤ q.maxsize
      → Keeps (length snapshot) q (enqueue_all snapshot q)
  unfolding enqueue_all
  enqueue_all-Keeps [] q h k = record { accounts = Accounts-refl q; fits = k }
  enqueue_all-Keeps ((a, meanwhile) ∷ snapshot) q h k =
      let next = enqueue meanwhile a q in
      let first = enqueue-Keeps meanwhile a q h k in
      let later =
        enqueue_all-Keeps snapshot next (omega (arith, h, first.accounts.bound)) first.fits in
      record {
        accounts = Accounts-trans first.accounts later.accounts (omega arith);
        fits = later.fits;
      }

  -- Over any sequence of flushes and drains, with the writer also at work while a full queue is relieved
  -- and whatever the database does, from a state within its bound, which is positive: the snapshots
  -- written, those that left the queue unwritten, those queued and those counted as dropped grow together
  -- by the number handed to `_enqueue`, and by one more for each drop that was counted though the
  -- queue was found empty. The queue never exceeds its bound, which stays. From a state in which the
  -- database is given up it stays so, and nothing more is written.
  pub run-Keeps :
      (steps : List (Step A)) (q : Snapshots A)
      → 0 < q.maxsize
      → length q.queue ≤ q.maxsize
      → Keeps (handed steps) q (run steps q)
  unfolding run
  run-Keeps [] q h k = record { accounts = Accounts-refl q; fits = k }
  run-Keeps (flush snapshot ∷ steps) q h k =
      let first = enqueue_all-Keeps snapshot q h k in
      let later =
        run-Keeps steps (enqueue_all snapshot q) (omega (arith, h, first.accounts.bound))
          first.fits in
      record {
        accounts = Accounts-trans first.accounts later.accounts (omega arith);
        fits = later.fits;
      }
  run-Keeps (drain cs ∷ steps) q h k =
      let (first, shorter) = drain_queue-Accounts cs q in
      let later =
        run-Keeps steps (drain_queue cs q) (omega (arith, h, first.bound))
          (omega (arith, k, shorter, first.bound)) in
      record { accounts = Accounts-trans first later.accounts (omega arith); fits = later.fits }
