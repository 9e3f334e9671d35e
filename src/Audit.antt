-- ===== src/Audit.antt =====
-- The audit of tool calls in _audit.py: the host test, the policy's decision and the log.
pub mod Host
pub mod Policy
pub mod Log
pub mod Dotdot
