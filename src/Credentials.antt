-- ===== src/Credentials.antt =====
-- Access keys: api/static/credentials.js.
pub mod Detect
pub mod Flagged
pub mod Keys
pub mod Connect
