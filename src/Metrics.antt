-- ===== src/Metrics.antt =====
-- The metrics of _metrics.py: the kinds that may be stored, the queue of snapshots, and the counters
-- per day and per hour.
pub mod Kind
pub mod Queue
pub mod Counters
pub mod Aggregate
