-- ===== src/Shell.antt =====
-- The shell around the views: api/static/app.js and api/static/nav.js.
pub mod Escape
pub mod Panes
pub mod Views
pub mod Visible
