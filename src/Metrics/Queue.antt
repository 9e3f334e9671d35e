-- ===== src/Metrics/Queue.antt =====
-- The bounded queue of snapshots of _metrics.py: `_enqueue` on the event loop, `_drain_queue` and
-- `_write_flush` in the writer's thread.
pub mod Accounts
use credential_proxy.Prelude.{
  ℕ, zero, suc, ◌+◌, ◌≤◌, ◌<◌, ◌≡◌, refl, sym, ap, subst, ◌∙◌, Bool, true, false, ◌&&◌, not, List,
  [], ◌∷◌, ◌++◌, ltb, leb, length, drop, if◌then◌else◌, length-drop, length-append, arith,
  Bool-cases, inl, inr, ◌⊎◌,
}

-- How the statements of one snapshot end: committed, an error that `_handle_write_error` only logs, or
-- one for which it gives the database up.
pub data Commit : Type 0 where
  committed : Commit
  failed : Commit
  given_up : Commit

-- `written` and `unwritten` are the snapshots that left the queue for the database, and `found_empty`
-- is how often `get_nowait` raised `Empty` in `_enqueue`; the code does not count them.
pub record Snapshots (A : Type 0) : Type 0 where
  pub queue : List A
  pub maxsize : ℕ
  pub dropped : ℕ
  -- `_sqlite_ok`, with a connection
  pub sqlite_ok : Bool
  pub written : List A
  pub unwritten : List A
  pub found_empty : ℕ

module _ {A : Type 0} where
  -- `_write_flush`: nothing is written while the database is given up.
  unfoldable pub write_flush : Commit → A → Snapshots A → Snapshots A
  write_flush committed a q =
      if q.sqlite_ok
      then record q { written = q.written ++ (a ∷ []) }
      else record q { unwritten = q.unwritten ++ (a ∷ []) }
  write_flush failed a q = record q { unwritten = q.unwritten ++ (a ∷ []) }
  write_flush given_up a q = record q { unwritten = q.unwritten ++ (a ∷ []); sqlite_ok = false }

  -- Rounds of the loop of `_drain_queue`, as many as there are outcomes; it breaks at an empty queue.
  unfoldable pub drain_queue : List Commit → Snapshots A → Snapshots A
  unfolding write_flush
  drain_queue [] q = q
  drain_queue (c ∷ cs) q = elim q.queue [
    | [] ↦ q
    | a ∷ rest ↦ drain_queue cs (write_flush c a (record q { queue = rest }))
  ]

  -- `queue.Queue.put_nowait` raises `Full`; a queue without a bound has maxsize 0.
  abbrev pub is_full : Snapshots A → Bool
  is_full q = ltb 0 q.maxsize && leb q.maxsize (length q.queue)

  abbrev pub put : A → Snapshots A → Snapshots A
  put a q = record q { queue = q.queue ++ (a ∷ []) }

  -- The oldest item goes; `queue.Empty` is passed over, and a drop is counted all the same.
  unfoldable pub drop_oldest : Snapshots A → Snapshots A
  drop_oldest q = elim q.queue [
    | [] ↦ record q { dropped = q.dropped + 1; found_empty = q.found_empty + 1 }
    | a ∷ rest ↦ record q { queue = rest; dropped = q.dropped + 1 }
  ]

  -- One round of the loop of `_enqueue`; `meanwhile` is what the writer does between the `Full` and
  -- the `get_nowait`. Behind it there is room, as the queue only gets shorter.
  unfoldable pub enqueue : List Commit → A → Snapshots A → Snapshots A
  unfolding drain_queue drop_oldest
  enqueue meanwhile a q =
      if is_full q
      then (let r = drop_oldest (drain_queue meanwhile q) in if is_full r then r else put a r)
      else put a q

  -- `_enqueue`, for the snapshots with what the writer does meanwhile.
  unfoldable pub enqueue_all : List (A × List Commit) → Snapshots A → Snapshots A
  unfolding enqueue
  enqueue_all [] q = q
  enqueue_all ((a, meanwhile) ∷ snapshot) q = enqueue_all snapshot (enqueue meanwhile a q)

-- The collector hands over a snapshot, or the writer drains the queue.
pub data Step (A : Type 0) : Type 0 where
  flush : List (A × List Commit) → Step A
  drain : List Commit → Step A

module _ {A : Type 0} where
  unfoldable pub run : List (Step A) → Snapshots A → Snapshots A
  unfolding enqueue_all drain_queue
  run [] q = q
  run (flush snapshot ∷ steps) q = run steps (enqueue_all snapshot q)
  run (drain cs ∷ steps) q = run steps (drain_queue cs q)

  -- The items handed over.
  abbrev pub handed : List (Step A) → ℕ
  handed [] = 0
  handed (flush snapshot ∷ steps) = length snapshot + handed steps
  handed (drain cs ∷ steps) = handed steps
