-- ===== src/Adapters/Samples.antt =====
-- A configuration, for the examples.
use pm.Base.{true, [], ◌∷◌, codes}
use pm.Adapters.Config.{RestartConfig, SandboxConfig, ServiceConfig, Pm3Config, default_notify}

abbrev pub restart : RestartConfig
restart = record {
  autorestart = true;
  min_uptime_ms = 60;
  max_restarts = 60;
  restart_delay_ms = 60;
  max_restart_delay_ms = 60;
}

abbrev pub sandbox : SandboxConfig
sandbox = record {
  mode = codes "workspace-write";
  read = codes "full";
  network = true;
  seatbelt_program = codes "seatbelt";
  bwrap_program = codes "bwrap";
  minimal_read_roots = codes "/usr" ∷ [];
  forbidden_writable_roots = [];
}

abbrev pub service : ServiceConfig
service = record {
  label = codes "pm3";
  restart_delay_secs = 60;
  restart_condition = codes "always";
  max_tasks = 60;
  cpu_quota_percent = 0;
  wait_for_network = true;
  launchctl_path = codes "launchctl";
  systemctl_path = codes "systemctl";
  loginctl_path = codes "loginctl";
  schtasks_path = codes "schtasks";
  taskkill_path = codes "taskkill";
}

abbrev pub config : Pm3Config
config = record {
  home = codes "~";
  cfg_dir = [];
  state_dir = [];
  runtime_dir = [];
  data_dir = [];
  search_path = codes "/usr/bin:/bin";
  stop_signal = codes "TERM";
  kill_timeout_ms = 1500;
  start_timeout_ms = 60;
  drain_timeout_secs = 60;
  request_timeout_ms = 60;
  command_timeout_ms = 60;
  daemon_poll_interval_ms = 20;
  daemon_poll_max_interval_ms = 60;
  memory_poll_interval_ms = 60;
  liveness_poll_interval_ms = 60;
  liveness_failure_threshold = 60;
  log_follow_interval_ms = 60;
  log_tail_lines = 60;
  log_read_max_bytes = 60;
  log_rotate_max_bytes = 60;
  log_rotate_interval_ms = 60;
  ready_timeout_ms = 60;
  ready_poll_interval_ms = 60;
  daemon_channel_depth = 60;
  request_body_limit_bytes = 60;
  sops_identity_file = [];
  sops_program = codes "sops";
  sops_timeout_ms = 60;
  restart = restart;
  sandbox = sandbox;
  service = service;
  notify = default_notify;
}
