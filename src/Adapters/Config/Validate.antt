-- ===== src/Adapters/Config/Validate.antt =====
-- adapters/src/config/validate.rs. `is_absolute_path` is as built for targets other than Windows.
use Prim.Native.String.{String}
use pm.Base.{
  ℕ, Bool, true, false, not, ◌||◌, any, find, is_empty, Option, none, some, List, [], ◌∷◌, Text,
  codes, contains_text, starts_with, join, ltb, ◌==◌, Result, ok, err, ◌>>◌, if◌then◌else◌,
}
use pm.Adapters.Config.{
  ConfigError, SandboxConfig, Pm3Config, TelemetryConfig, AppConfig, log_format_json,
  log_format_pretty, restart_condition_always, restart_condition_on_failure,
}
use pm.Entities.Policy.{
  read_only, workspace_write, danger_full_access, full, minimal, mode_as_str, mode_parse,
  read_as_str, read_parse,
}
use pm.Entities.Roots.{is_absolute_path}
use pm.Entities.Signal.{valid_signals}
use pm.Entities.Spec.{is_name_letter}

abbrev pub Checked : Type 0
Checked = Result (Unit {0}) ConfigError

-- `if condition { return Err(error) }`
abbrev pub reject_if : Bool → ConfigError → Checked
reject_if true error = err error
reject_if false error = ok tt

-- `if value < 1 { return Err(error(value)) }`
abbrev pub at_least_one : ℕ → (ℕ → ConfigError) → Checked
at_least_one value error = reject_if (ltb value 1) (error value)

abbrev pub valid_log_levels : List Text
valid_log_levels = codes "trace" ∷ codes "debug" ∷ codes "info" ∷ codes "warn" ∷ codes "error" ∷ []

abbrev pub valid_log_formats : List Text
valid_log_formats = log_format_json ∷ log_format_pretty ∷ []

abbrev pub valid_restart_conditions : List Text
valid_restart_conditions = restart_condition_always ∷ restart_condition_on_failure ∷ []

unfoldable pub derivable_root : Text → Bool
unfolding starts_with
derivable_root value =
    if is_empty value
    then true
    else if is_absolute_path value
    then true
    else starts_with (codes "~") value

unfoldable pub validate_derived_root : Text → Text → Checked
unfolding derivable_root
validate_derived_root field value =
    if derivable_root value then ok tt else err (ConfigError.invalid_root field)

unfoldable pub reject_line_break : Text → Text → Checked
reject_line_break field value =
    reject_if (any (λ c. (c == 10) || (c == 13)) value) (ConfigError.unsafe_line_break field)

unfoldable pub validate_paths : Pm3Config → Checked
unfolding derivable_root validate_derived_root reject_line_break
validate_paths pm3 =
    reject_if (not (derivable_root pm3.home)) ConfigError.invalid_home
    >> reject_if (not (derivable_root pm3.cfg_dir)) ConfigError.invalid_cfg_dir
    >> validate_derived_root (codes "pm3.state_dir") pm3.state_dir
    >> validate_derived_root (codes "pm3.runtime_dir") pm3.runtime_dir
    >> validate_derived_root (codes "pm3.data_dir") pm3.data_dir
    >> reject_if (is_empty pm3.search_path) ConfigError.invalid_search_path
    >> reject_line_break (codes "pm3.home") pm3.home
    >> reject_line_break (codes "pm3.search_path") pm3.search_path

unfoldable pub validate_timeouts : Pm3Config → Checked
validate_timeouts pm3 =
    at_least_one pm3.kill_timeout_ms ConfigError.invalid_kill_timeout
    >> at_least_one pm3.start_timeout_ms ConfigError.invalid_start_timeout
    >> at_least_one pm3.drain_timeout_secs ConfigError.invalid_drain_timeout
    >> at_least_one pm3.request_timeout_ms ConfigError.invalid_request_timeout
    >> at_least_one pm3.command_timeout_ms ConfigError.invalid_command_timeout
    >> at_least_one pm3.ready_timeout_ms ConfigError.invalid_ready_timeout
    >> at_least_one pm3.sops_timeout_ms ConfigError.invalid_sops_timeout

unfoldable pub validate_intervals : Pm3Config → Checked
validate_intervals pm3 =
    at_least_one pm3.daemon_poll_interval_ms ConfigError.invalid_poll_interval
    >> reject_if (ltb pm3.daemon_poll_max_interval_ms pm3.daemon_poll_interval_ms) (
        ConfigError.invalid_poll_ceiling pm3.daemon_poll_max_interval_ms
          pm3.daemon_poll_interval_ms)
    >> at_least_one pm3.memory_poll_interval_ms ConfigError.invalid_memory_poll_interval
    >> at_least_one pm3.log_follow_interval_ms ConfigError.invalid_follow_interval
    >> at_least_one pm3.log_tail_lines ConfigError.invalid_log_tail_lines
    >> at_least_one pm3.log_read_max_bytes ConfigError.invalid_log_read_max_bytes
    >> at_least_one pm3.log_rotate_interval_ms ConfigError.invalid_log_rotate_interval
    >> at_least_one pm3.ready_poll_interval_ms ConfigError.invalid_ready_poll_interval
    >> at_least_one pm3.daemon_channel_depth ConfigError.invalid_channel_depth
    >> at_least_one pm3.request_body_limit_bytes ConfigError.invalid_body_limit

unfoldable pub validate_budgets : Pm3Config → Checked
validate_budgets pm3 = validate_timeouts pm3 >> validate_intervals pm3

unfoldable pub sandbox_mode_names : Text
sandbox_mode_names =
    join (codes ", ")
      (mode_as_str read_only ∷ mode_as_str workspace_write ∷ mode_as_str danger_full_access ∷ [])

unfoldable pub read_scope_names : Text
read_scope_names = join (codes ", ") (read_as_str full ∷ read_as_str minimal ∷ [])

unfoldable pub reject_relative_roots : Text → List Text → Checked
reject_relative_roots field roots = elim (find (λ root. not (is_absolute_path root)) roots) [
  | none ↦ ok tt
  | some root ↦ err (ConfigError.relative_sandbox_root field root)
]

unfoldable pub validate_sandbox_roots : SandboxConfig → Checked
unfolding reject_relative_roots
validate_sandbox_roots sandbox =
    reject_if (is_empty sandbox.minimal_read_roots) ConfigError.empty_minimal_read_roots
    >> reject_relative_roots (codes "pm3.sandbox.minimal_read_roots") sandbox.minimal_read_roots
    >> reject_relative_roots (codes "pm3.sandbox.forbidden_writable_roots")
        sandbox.forbidden_writable_roots

abbrev pub parses {ℓ} : {A : Type ℓ} → Option A → Bool
parses none = false
parses (some a) = true

unfoldable pub validate_choices : Pm3Config → Checked
unfolding contains_text validate_sandbox_roots sandbox_mode_names read_scope_names
validate_choices pm3 =
    reject_if (not (contains_text valid_signals pm3.stop_signal))
      (ConfigError.invalid_stop_signal pm3.stop_signal)
    >> at_least_one pm3.liveness_poll_interval_ms ConfigError.invalid_liveness_poll_interval
    >> at_least_one pm3.liveness_failure_threshold ConfigError.invalid_liveness_threshold
    >> at_least_one pm3.restart.min_uptime_ms ConfigError.invalid_min_uptime
    >> at_least_one pm3.restart.max_restart_delay_ms ConfigError.invalid_max_restart_delay
    >> reject_if (not (parses (mode_parse pm3.sandbox.mode)))
        (ConfigError.invalid_sandbox_mode pm3.sandbox.mode sandbox_mode_names)
    >> reject_if (not (parses (read_parse pm3.sandbox.read)))
        (ConfigError.invalid_sandbox_read pm3.sandbox.read read_scope_names)
    >> validate_sandbox_roots pm3.sandbox

abbrev pub reject_empty : String → Text → Checked
reject_empty field value = reject_if (is_empty value) (ConfigError.empty_program (codes field))

unfoldable pub validate_programs : Pm3Config → Checked
unfolding contains_text
validate_programs pm3 =
    reject_empty "pm3.sandbox.seatbelt_program" pm3.sandbox.seatbelt_program
    >> reject_empty "pm3.sandbox.bwrap_program" pm3.sandbox.bwrap_program
    >> reject_empty "pm3.service.launchctl_path" pm3.service.launchctl_path
    >> reject_empty "pm3.service.systemctl_path" pm3.service.systemctl_path
    >> reject_empty "pm3.service.loginctl_path" pm3.service.loginctl_path
    >> reject_empty "pm3.service.schtasks_path" pm3.service.schtasks_path
    >> reject_empty "pm3.service.taskkill_path" pm3.service.taskkill_path
    >> reject_empty "pm3.sops_program" pm3.sops_program
    >> reject_empty "pm3.notify.osascript_program" pm3.notify.osascript_program
    >> reject_empty "pm3.notify.notify_send_program" pm3.notify.notify_send_program
    >> reject_if (not (contains_text valid_restart_conditions pm3.service.restart_condition))
        (ConfigError.invalid_restart_condition pm3.service.restart_condition)
    >> at_least_one pm3.service.max_tasks ConfigError.invalid_max_tasks

unfoldable pub validate_service_label : Text → Checked
unfolding starts_with
validate_service_label label =
    reject_if (is_empty label) ConfigError.invalid_service_label
    >> reject_if (starts_with (codes ".") label) (ConfigError.dotted_service_label label)
    >> (elim (find (λ letter. not (is_name_letter letter)) label) [
      | none ↦ ok tt
      | some character ↦ err (ConfigError.unsafe_service_label label character)
    ])

unfoldable pub validate_pm3_config : Pm3Config → Checked
validate_pm3_config pm3 =
    validate_paths pm3
    >> validate_budgets pm3
    >> validate_choices pm3
    >> validate_service_label pm3.service.label
    >> validate_programs pm3

unfoldable pub validate_telemetry_config : TelemetryConfig → Checked
unfolding contains_text
validate_telemetry_config t =
    reject_if (is_empty t.service_name) ConfigError.invalid_service_name
    >> reject_if (not (contains_text valid_log_levels t.log_level))
        (ConfigError.invalid_log_level t.log_level)
    >> reject_if (not (contains_text valid_log_formats t.log_format))
        (ConfigError.invalid_log_format t.log_format)

unfoldable pub validate_config : AppConfig → Checked
validate_config cfg = validate_pm3_config cfg.pm3 >> validate_telemetry_config cfg.telemetry
