-- ===== src/Entities/SpecError.antt =====
-- The errors of entities/src/process/spec.rs, which the checks of its probes return too.
use pm.Base.{ℕ, Text, ℤ}
use pm.Entities.Policy.{PolicyError}

pub data SpecError : Type 0 where
  exec_liveness_probe : (app : Text) → SpecError
  empty_name : SpecError
  numeric_name : (name : Text) → SpecError
  dotted_name : (name : Text) → SpecError
  reserved_name : (name : Text) → SpecError
  encrypted_name : (name : Text) → SpecError
  reserved_file_name : (name : Text) → SpecError
  unsafe_name : (name : Text) (character : ℕ) → SpecError
  empty_script : (app : Text) → SpecError
  relative_cwd : (app cwd : Text) → SpecError
  self_dependency : (app : Text) → SpecError
  invalid_min_uptime : (app : Text) → SpecError
  invalid_max_restart_delay : (app : Text) → SpecError
  empty_ready_probe : (app : Text) → SpecError
  invalid_ready_endpoint : (app endpoint : Text) → SpecError
  invalid_listen_timeout : (app : Text) → SpecError
  empty_env_key : (app : Text) → SpecError
  empty_schedule : (app : Text) → SpecError
  invalid_stop_exit_code : (app : Text) (code : ℤ) → SpecError
  confined_self_responsible : (app : Text) → SpecError
  sandbox_error : (app : Text) (source : PolicyError) → SpecError
