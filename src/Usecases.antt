-- ===== src/Usecases.antt =====
-- The crate `usecases`: the process table and the operations on it, over abstract ports.
pub mod Samples
mod Examples
pub mod Handover
pub mod LogPaths
pub mod Selector
pub mod Ports
pub mod Messages
pub mod Record
pub mod Table
pub mod TimerState
pub mod Alert
pub mod Fingerprint
pub mod Query
pub mod Supervise
pub mod Stop
pub mod Launch
pub mod Start
pub mod Restart
pub mod Delete
pub mod Resurrect
pub mod Supervision
pub mod Supervisor
pub mod Lifecycle
