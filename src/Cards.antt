-- ===== src/Cards.antt =====
-- The cards and the views "Projekte" and "Routinen": api/static/cards.js.
pub mod Lookup
pub mod Team
pub mod Project
pub mod Sets
pub mod Reached
pub mod Ways
pub mod Resolved
pub mod Named
pub mod Chat
pub mod Link
pub mod Tile
pub mod Safe
pub mod Schedule
pub mod Spelled
pub mod Grid
pub mod Sorted
pub mod View
pub mod Fresh
pub mod Agent
pub mod Routines
pub mod Once
