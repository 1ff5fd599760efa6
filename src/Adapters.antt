-- ===== src/Adapters.antt =====
-- The crate `adapters`: files, texts and protocols around the use cases.
mod Examples
pub mod Samples
pub mod Config
pub mod Persistence
pub mod Schedule
pub mod Unit
pub mod Presenter
