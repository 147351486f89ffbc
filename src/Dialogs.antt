-- ===== src/Dialogs.antt =====
-- The dialogs that several views open: the focus inside a dialog, and the form of a routine.
pub mod Trap
pub mod Routine
pub mod Weekly
pub mod Create
pub mod Project
pub mod Named
