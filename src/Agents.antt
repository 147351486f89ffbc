-- ===== src/Agents.antt =====
-- The agent list and the agent panel: api/static/agents.js.
pub mod Names
pub mod Avatar
pub mod Schedule
pub mod Sidebar
pub mod Found
pub mod Audit
pub mod Activity
pub mod Slug
pub mod Slugged
