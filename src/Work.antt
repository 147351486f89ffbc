-- ===== src/Work.antt =====
-- The view `arbeit`: api/static/work.js.
pub mod Evidence
pub mod Sorted
pub mod Cards
pub mod Redaction
pub mod Summary
pub mod Fetch
pub mod Newest
