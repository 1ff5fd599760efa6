-- ===== src/Usecases/Lifecycle.antt =====
-- The operations of usecases/src on the process table together.
pub mod Records
pub mod Steps
pub mod Removal
pub mod Runs
pub mod Manual
pub mod Deletion
pub mod Restarting
pub mod Shutdown
