-- ===== src/Adapters/Config/Messages.antt =====
-- The messages that the `#[error]` attributes of adapters/src/config/schema.rs give.
use Prim.Native.String.{String}
use pm.Base.{ℕ, [], ◌∷◌, ◌++◌, Text, codes, concat, print_decimal}
use pm.Adapters.Config.{ConfigError}

-- A message about a number that must be at least 1.
unfoldable pub too_small : String → ℕ → Text
unfolding concat
too_small field value = concat (
    codes "cannot accept pm3."
    ∷ codes field
    ∷ codes " "
    ∷ print_decimal value
    ∷ codes ": must be >= 1"
    ∷ [])

unfoldable pub config_message : ConfigError → Text
unfolding concat too_small
config_message (ConfigError.parse_error reason) = codes "cannot parse config: " ++ reason
config_message ConfigError.invalid_home =
    codes "cannot accept pm3.home: must be absolute, start with '~', or be empty to derive it"
config_message ConfigError.invalid_cfg_dir =
    codes
      "cannot accept pm3.cfg_dir: must be absolute, start with '~', or be empty to follow the config root"
config_message (ConfigError.invalid_root field) = concat (
    codes "cannot accept "
    ∷ field
    ∷ codes ": must be absolute, start with '~', or be empty to derive it"
    ∷ [])
config_message (ConfigError.invalid_kill_timeout value) = too_small "kill_timeout_ms" value
config_message (ConfigError.invalid_start_timeout value) = too_small "start_timeout_ms" value
config_message (ConfigError.invalid_drain_timeout value) = too_small "drain_timeout_secs" value
config_message (ConfigError.invalid_request_timeout value) = too_small "request_timeout_ms" value
config_message (ConfigError.invalid_command_timeout value) = too_small "command_timeout_ms" value
config_message (ConfigError.invalid_poll_interval value) = too_small "daemon_poll_interval_ms" value
config_message (ConfigError.invalid_follow_interval value) =
    too_small "log_follow_interval_ms" value
config_message (ConfigError.invalid_log_tail_lines value) = too_small "log_tail_lines" value
config_message (ConfigError.invalid_log_read_max_bytes value) = too_small "log_read_max_bytes" value
config_message (ConfigError.invalid_log_rotate_interval value) =
    too_small "log_rotate_interval_ms" value
config_message (ConfigError.invalid_ready_timeout value) = too_small "ready_timeout_ms" value
config_message (ConfigError.invalid_ready_poll_interval value) =
    too_small "ready_poll_interval_ms" value
config_message (ConfigError.invalid_channel_depth value) = too_small "daemon_channel_depth" value
config_message (ConfigError.invalid_body_limit value) = too_small "request_body_limit_bytes" value
config_message (ConfigError.invalid_sops_timeout value) = too_small "sops_timeout_ms" value
config_message (ConfigError.invalid_max_tasks value) = too_small "service.max_tasks" value
config_message (ConfigError.invalid_min_uptime value) = too_small "restart.min_uptime_ms" value
config_message (ConfigError.invalid_max_restart_delay value) =
    too_small "restart.max_restart_delay_ms" value
config_message (ConfigError.invalid_memory_poll_interval value) =
    too_small "memory_poll_interval_ms" value
config_message (ConfigError.invalid_liveness_poll_interval value) =
    too_small "liveness_poll_interval_ms" value
config_message (ConfigError.invalid_liveness_threshold value) =
    too_small "liveness_failure_threshold" value
config_message (ConfigError.invalid_poll_ceiling ceiling floor) = concat (
    codes "cannot accept pm3.daemon_poll_max_interval_ms "
    ∷ print_decimal ceiling
    ∷ codes ": must be >= daemon_poll_interval_ms "
    ∷ print_decimal floor
    ∷ [])
config_message (ConfigError.empty_program field) = codes "cannot accept empty " ++ field
config_message (ConfigError.invalid_restart_condition value) = concat (
    codes "cannot accept pm3.service.restart_condition "
    ∷ value
    ∷ codes ": must be one of always, on-failure"
    ∷ [])
config_message (ConfigError.invalid_stop_signal value) = concat (
    codes "cannot accept pm3.stop_signal "
    ∷ value
    ∷ codes ": must be one of TERM, INT, QUIT, HUP, USR1, USR2"
    ∷ [])
config_message (ConfigError.invalid_sandbox_mode value expected) =
    concat
      (codes "cannot accept pm3.sandbox.mode " ∷ value ∷ codes ": must be one of " ∷ expected ∷ [])
config_message (ConfigError.invalid_sandbox_read value expected) =
    concat
      (codes "cannot accept pm3.sandbox.read " ∷ value ∷ codes ": must be one of " ∷ expected ∷ [])
config_message (ConfigError.relative_sandbox_root field root) = concat (
    codes "cannot accept "
    ∷ field
    ∷ codes " entry '"
    ∷ root
    ∷ codes "': must be an absolute path"
    ∷ [])
config_message ConfigError.empty_minimal_read_roots =
    codes
      "cannot accept empty pm3.sandbox.minimal_read_roots: a confined read scope needs at least the system directories"
config_message ConfigError.invalid_service_label = codes "cannot accept empty pm3.service.label"
config_message (ConfigError.unsafe_service_label label character) = concat (
    codes "cannot accept pm3.service.label "
    ∷ label
    ∷ codes ": unsafe character '"
    ∷ (character ∷ [])
    ∷ codes "'"
    ∷ [])
config_message (ConfigError.dotted_service_label label) =
    concat
      (codes "cannot accept pm3.service.label " ∷ label ∷ codes ": must not start with '.'" ∷ [])
config_message (ConfigError.unsafe_line_break field) =
    concat (codes "cannot accept " ∷ field ∷ codes ": must not contain a line break" ∷ [])
config_message ConfigError.invalid_search_path = codes "cannot accept empty pm3.search_path"
config_message ConfigError.invalid_service_name = codes "cannot accept empty telemetry.service_name"
config_message (ConfigError.invalid_log_level value) = concat (
    codes "cannot accept telemetry.log_level "
    ∷ value
    ∷ codes ": must be one of trace, debug, info, warn, error"
    ∷ [])
config_message (ConfigError.invalid_log_format value) = concat (
    codes "cannot accept telemetry.log_format "
    ∷ value
    ∷ codes ": must be one of json, pretty"
    ∷ [])
