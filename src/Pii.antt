-- ===== src/Pii.antt =====
-- The detector of _pii.py: the spans that a scan of one text reports, the choice among spans that
-- overlap, and the text with a token in place of each span.
pub mod Span
pub mod Address
pub mod Checksum
pub mod Custom
pub mod Scan
pub mod Choose
pub mod Replace
