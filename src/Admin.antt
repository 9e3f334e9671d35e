-- ===== src/Admin.antt =====
-- The dashboard's endpoints of _admin.py: the limits on calls and on streams, and the handler.
pub mod Limit
pub mod Streams
pub mod Handler
