-- ===== src/Frameworks.antt =====
-- The crate `frameworks`: the daemon around the supervisor.
pub mod Daemon
