-- ===== src/OrgData.antt =====
-- The organisation store: api/static/org-data.js.
pub mod Errors
pub mod Types
pub mod Store
pub mod Translation
pub mod Relations
pub mod Mutations
pub mod Made
pub mod Performed
pub mod Reachable
