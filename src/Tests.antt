-- ===== src/Tests.antt =====
-- The theorems at concrete inputs.
mod Data
mod Tokens
mod Registry
mod Approvals
mod Handlers
mod Texts
mod Pii
mod Admin
mod Audit
mod Metrics
mod Dotdot
mod Calls
mod Hold
