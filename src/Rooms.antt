-- ===== src/Rooms.antt =====
-- The chat rooms: api/static/rooms.js.
pub mod Header
pub mod Thread
pub mod Log
pub mod Open
pub mod Twice
