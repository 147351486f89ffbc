-- ===== src/Chat.antt =====
-- The chat view: api/static/chat.js.
pub mod Routine
pub mod Mission
pub mod Send
pub mod Timeline
pub mod Decision
pub mod Start
