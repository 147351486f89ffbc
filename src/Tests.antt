-- ===== src/Tests.antt =====
-- Runs of the code at concrete inputs, and the theorems applied to them.
mod Chat
mod Missions
mod Work
mod Shell
mod Org
mod Canvas
mod Edits
mod Cards
mod Dialogs
mod Rooms
mod Keys
