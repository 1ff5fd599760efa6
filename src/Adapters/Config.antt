-- ===== src/Adapters/Config.antt =====
-- adapters/src/config/schema.rs, but for the messages of its errors, which stand in Messages. What
-- `serde` does to a file is not modelled; a missing field takes its default before these records.
pub mod Messages
pub mod Validate
pub mod Accepted
pub mod Readings
use pm.Base.{ℕ, ◌*◌, Bool, true, List, Text, codes}

pub data ConfigError : Type 0 where
  parse_error : (reason : Text) → ConfigError
  invalid_home invalid_cfg_dir : ConfigError
  invalid_root : (field : Text) → ConfigError
  invalid_kill_timeout : (value : ℕ) → ConfigError
  invalid_start_timeout : (value : ℕ) → ConfigError
  invalid_drain_timeout : (value : ℕ) → ConfigError
  invalid_request_timeout : (value : ℕ) → ConfigError
  invalid_command_timeout : (value : ℕ) → ConfigError
  invalid_poll_interval : (value : ℕ) → ConfigError
  invalid_follow_interval : (value : ℕ) → ConfigError
  invalid_log_tail_lines : (value : ℕ) → ConfigError
  invalid_log_read_max_bytes : (value : ℕ) → ConfigError
  invalid_log_rotate_interval : (value : ℕ) → ConfigError
  invalid_ready_timeout : (value : ℕ) → ConfigError
  invalid_ready_poll_interval : (value : ℕ) → ConfigError
  invalid_channel_depth : (value : ℕ) → ConfigError
  invalid_body_limit : (value : ℕ) → ConfigError
  invalid_sops_timeout : (value : ℕ) → ConfigError
  invalid_max_tasks : (value : ℕ) → ConfigError
  invalid_min_uptime : (value : ℕ) → ConfigError
  invalid_max_restart_delay : (value : ℕ) → ConfigError
  invalid_memory_poll_interval : (value : ℕ) → ConfigError
  invalid_liveness_poll_interval : (value : ℕ) → ConfigError
  invalid_liveness_threshold : (value : ℕ) → ConfigError
  invalid_poll_ceiling : (ceiling floor : ℕ) → ConfigError
  empty_program : (field : Text) → ConfigError
  invalid_restart_condition invalid_stop_signal : (value : Text) → ConfigError
  invalid_sandbox_mode invalid_sandbox_read : (value expected : Text) → ConfigError
  relative_sandbox_root : (field root : Text) → ConfigError
  empty_minimal_read_roots invalid_service_label : ConfigError
  unsafe_service_label : (label : Text) (character : ℕ) → ConfigError
  dotted_service_label : (label : Text) → ConfigError
  unsafe_line_break : (field : Text) → ConfigError
  invalid_search_path invalid_service_name : ConfigError
  invalid_log_level invalid_log_format : (value : Text) → ConfigError

pub record RestartConfig : Type 0 where
  pub autorestart : Bool
  pub min_uptime_ms : ℕ
  pub max_restarts : ℕ
  pub restart_delay_ms : ℕ
  pub max_restart_delay_ms : ℕ

pub record SandboxConfig : Type 0 where
  pub mode : Text
  pub read : Text
  pub network : Bool
  pub seatbelt_program : Text
  pub bwrap_program : Text
  pub minimal_read_roots : List Text
  pub forbidden_writable_roots : List Text

pub record ServiceConfig : Type 0 where
  pub label : Text
  pub restart_delay_secs : ℕ
  pub restart_condition : Text
  pub max_tasks : ℕ
  pub cpu_quota_percent : ℕ
  pub wait_for_network : Bool
  pub launchctl_path : Text
  pub systemctl_path : Text
  pub loginctl_path : Text
  pub schtasks_path : Text
  pub taskkill_path : Text

pub record NotifyMessages : Type 0 where
  pub exited_code : Text
  pub exited_signal : Text
  pub ready_failed : Text
  pub ready_failed_downstream : Text
  pub liveness_killed : Text
  pub memory_killed : Text
  pub launch_failed : Text

pub record NotifyConfig : Type 0 where
  pub enabled : Bool
  pub cooldown_ms : ℕ
  pub osascript_program : Text
  pub notify_send_program : Text
  pub title : Text
  pub messages : NotifyMessages

pub record Pm3Config : Type 0 where
  pub home : Text
  pub cfg_dir : Text
  pub state_dir : Text
  pub runtime_dir : Text
  pub data_dir : Text
  pub search_path : Text
  pub stop_signal : Text
  pub kill_timeout_ms : ℕ
  pub start_timeout_ms : ℕ
  pub drain_timeout_secs : ℕ
  pub request_timeout_ms : ℕ
  pub command_timeout_ms : ℕ
  pub daemon_poll_interval_ms : ℕ
  pub daemon_poll_max_interval_ms : ℕ
  pub memory_poll_interval_ms : ℕ
  pub liveness_poll_interval_ms : ℕ
  pub liveness_failure_threshold : ℕ
  pub log_follow_interval_ms : ℕ
  pub log_tail_lines : ℕ
  pub log_read_max_bytes : ℕ
  pub log_rotate_max_bytes : ℕ
  pub log_rotate_interval_ms : ℕ
  pub ready_timeout_ms : ℕ
  pub ready_poll_interval_ms : ℕ
  pub daemon_channel_depth : ℕ
  pub request_body_limit_bytes : ℕ
  pub sops_identity_file : Text
  pub sops_program : Text
  pub sops_timeout_ms : ℕ
  pub restart : RestartConfig
  pub sandbox : SandboxConfig
  pub service : ServiceConfig
  pub notify : NotifyConfig

pub record TelemetryConfig : Type 0 where
  pub service_name : Text
  pub log_level : Text
  pub log_format : Text

pub record AppConfig : Type 0 where
  pub pm3 : Pm3Config
  pub telemetry : TelemetryConfig

abbrev pub default_log_read_max_bytes : ℕ
default_log_read_max_bytes = 4 * 1024 * 1024

abbrev pub default_liveness_poll_interval_ms : ℕ
default_liveness_poll_interval_ms = 30000

abbrev pub default_liveness_failure_threshold : ℕ
default_liveness_failure_threshold = 3

abbrev pub default_sops_timeout_ms : ℕ
default_sops_timeout_ms = 30000

abbrev pub default_notify_cooldown_ms : ℕ
default_notify_cooldown_ms = 3600000

abbrev pub default_osascript_program : Text
default_osascript_program = codes "/usr/bin/osascript"

abbrev pub default_notify_send_program : Text
default_notify_send_program = codes "notify-send"

abbrev pub default_notify_title : Text
default_notify_title = codes "pm3: {name}"

abbrev pub default_sops_program : Text
default_sops_program = codes "sops"

unfoldable pub default_messages : NotifyMessages
default_messages = record {
  exited_code = codes "异常退出，退出码 {code}";
  exited_signal = codes "被信号终止或异常消失";
  ready_failed = codes "就绪检查失败";
  ready_failed_downstream = codes "就绪检查失败，下游未启动：{downstream}";
  liveness_killed = codes "存活检查连续失败，已重启";
  memory_killed = codes "内存超限，已重启";
  launch_failed = codes "自动启动失败";
}

unfoldable pub default_notify : NotifyConfig
default_notify = record {
  enabled = true;
  cooldown_ms = default_notify_cooldown_ms;
  osascript_program = default_osascript_program;
  notify_send_program = default_notify_send_program;
  title = default_notify_title;
  messages = default_messages;
}

abbrev pub log_format_json : Text
log_format_json = codes "json"

abbrev pub log_format_pretty : Text
log_format_pretty = codes "pretty"

abbrev pub restart_condition_always : Text
restart_condition_always = codes "always"

abbrev pub restart_condition_on_failure : Text
restart_condition_on_failure = codes "on-failure"
