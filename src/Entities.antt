-- ===== src/Entities.antt =====
-- The crate `entities`: the rules about one service, with no input or output.
mod Examples
pub mod Status
pub mod Restart
pub mod Runtime
pub mod Depgraph
pub mod Env
pub mod Limits
pub mod Signal
pub mod Secret
pub mod Priority
pub mod Roots
pub mod Policy
pub mod SpecError
pub mod Ready
pub mod Spec
pub mod Messages
