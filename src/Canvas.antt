-- ===== src/Canvas.antt =====
-- The organisation canvas: api/static/org-canvas.js, behind the vendored library at its head.
pub mod Elements
pub mod Graph
pub mod Connect
pub mod Question
pub mod Drop
pub mod Smallest
pub mod Granted
pub mod Redrawn
pub mod Edit
pub mod Listed
pub mod Edited
pub mod Late
pub mod Select
pub mod Known
pub mod Opened
pub mod Keyboard
pub mod Notify
pub mod Rows
pub mod View
pub mod Current
pub mod Details
