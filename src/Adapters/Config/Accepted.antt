-- ===== src/Adapters/Config/Accepted.antt =====
-- validate.rs: what the accepted configurations are.
use pm.Base.{
  ◌≤◌, ◌≡◌, ◌≢◌, ◌↔◌, true, [], All, Memᴰ, contains_text_iff, Text, ok, ◌>>◌, >>-eq-ok, codes,
  arith,
}
use pm.Adapters.Config.{Pm3Config}
use pm.Adapters.Config.Validate.{
  validate_timeouts, validate_intervals, validate_budgets, validate_paths, validate_choices,
  validate_programs, validate_service_label, validate_pm3_config, validate_sandbox_roots,
  validate_derived_root, reject_line_break, valid_restart_conditions,
}
use pm.Entities.Policy.{SandboxMode, ReadScope, mode_as_str, read_as_str}
use pm.Entities.Signal.{valid_signals}
use pm.Entities.Spec.{is_name_letter}
use pm.Adapters.Config.Readings.{
  BeginsWith, IsDerivable, IsOneLine, AllAbsolute, fails_iff, begins_iff, IsDerivable-iff,
  IsOneLine-iff, empty_iff, none_fails, reject_relative_roots_iff, mode_iff, read_iff,
}

-- The waits of an accepted configuration.
pub record HasTimeouts (pm3 : Pm3Config) : Type 0 where
  pub kill_timeout : 1 ≤ pm3.kill_timeout_ms
  pub start_timeout : 1 ≤ pm3.start_timeout_ms
  pub drain_timeout : 1 ≤ pm3.drain_timeout_secs
  pub request_timeout : 1 ≤ pm3.request_timeout_ms
  pub command_timeout : 1 ≤ pm3.command_timeout_ms
  pub ready_timeout : 1 ≤ pm3.ready_timeout_ms
  pub sops_timeout : 1 ≤ pm3.sops_timeout_ms

-- Its polls and limits.
pub record HasIntervals (pm3 : Pm3Config) : Type 0 where
  pub poll : 1 ≤ pm3.daemon_poll_interval_ms
  pub poll_ceiling : pm3.daemon_poll_interval_ms ≤ pm3.daemon_poll_max_interval_ms
  pub memory_poll : 1 ≤ pm3.memory_poll_interval_ms
  pub log_follow : 1 ≤ pm3.log_follow_interval_ms
  pub log_tail : 1 ≤ pm3.log_tail_lines
  pub log_read : 1 ≤ pm3.log_read_max_bytes
  pub log_rotate : 1 ≤ pm3.log_rotate_interval_ms
  pub ready_poll : 1 ≤ pm3.ready_poll_interval_ms
  pub channel_depth : 1 ≤ pm3.daemon_channel_depth
  pub body_limit : 1 ≤ pm3.request_body_limit_bytes

validate_timeouts_iff : (pm3 : Pm3Config) → (validate_timeouts pm3 ≡ ok tt) ↔ HasTimeouts pm3
unfolding validate_timeouts
validate_timeouts_iff pm3 = (λ h. ground arith, λ h. ground arith)

validate_intervals_iff : (pm3 : Pm3Config) → (validate_intervals pm3 ≡ ok tt) ↔ HasIntervals pm3
unfolding validate_intervals
validate_intervals_iff pm3 = (λ h. ground arith, λ h. ground arith)

-- Its directories, its search path, and that the two which a unit writes down are on one line.
pub record HasPaths (pm3 : Pm3Config) : Type 0 where
  pub home : IsDerivable pm3.home
  pub cfg_dir : IsDerivable pm3.cfg_dir
  pub state_dir : IsDerivable pm3.state_dir
  pub runtime_dir : IsDerivable pm3.runtime_dir
  pub data_dir : IsDerivable pm3.data_dir
  pub search_path : pm3.search_path ≢ []
  pub one_line_home : IsOneLine pm3.home
  pub one_line_search_path : IsOneLine pm3.search_path

validate_paths_iff : (pm3 : Pm3Config) → (validate_paths pm3 ≡ ok tt) ↔ HasPaths pm3
unfolding validate_paths validate_derived_root reject_line_break
validate_paths_iff pm3 = (
  λ h. record {
    home = (IsDerivable-iff pm3.home).0 (ground arith);
    cfg_dir = (IsDerivable-iff pm3.cfg_dir).0 (ground arith);
    state_dir = (IsDerivable-iff pm3.state_dir).0 (ground arith);
    runtime_dir = (IsDerivable-iff pm3.runtime_dir).0 (ground arith);
    data_dir = (IsDerivable-iff pm3.data_dir).0 (ground arith);
    search_path = (empty_iff pm3.search_path).0 (ground arith);
    one_line_home = (IsOneLine-iff pm3.home).0 (ground arith);
    one_line_search_path = (IsOneLine-iff pm3.search_path).0 (ground arith);
  },
  λ u.
      let home = (IsDerivable-iff pm3.home).1 u.home in
      let cfg_dir = (IsDerivable-iff pm3.cfg_dir).1 u.cfg_dir in
      let state_dir = (IsDerivable-iff pm3.state_dir).1 u.state_dir in
      let runtime_dir = (IsDerivable-iff pm3.runtime_dir).1 u.runtime_dir in
      let data_dir = (IsDerivable-iff pm3.data_dir).1 u.data_dir in
      let search_path = (empty_iff pm3.search_path).1 u.search_path in
      let one_line_home = (IsOneLine-iff pm3.home).1 u.one_line_home in
      let one_line_search_path = (IsOneLine-iff pm3.search_path).1 u.one_line_search_path in
      ground (
        arith, home, cfg_dir, state_dir, runtime_dir, data_dir, search_path, one_line_home,
        one_line_search_path,
      ),
)

-- Its choices among named alternatives, and the roots of the sandbox.
pub record HasChoices (pm3 : Pm3Config) : Type 0 where
  pub stop_signal : Memᴰ pm3.stop_signal valid_signals
  pub liveness_poll : 1 ≤ pm3.liveness_poll_interval_ms
  pub liveness_threshold : 1 ≤ pm3.liveness_failure_threshold
  pub min_uptime : 1 ≤ pm3.restart.min_uptime_ms
  pub max_restart_delay : 1 ≤ pm3.restart.max_restart_delay_ms
  pub mode : (m : SandboxMode) × (pm3.sandbox.mode ≡ mode_as_str m)
  pub read : (r : ReadScope) × (pm3.sandbox.read ≡ read_as_str r)
  pub some_minimal_roots : pm3.sandbox.minimal_read_roots ≢ []
  pub minimal_roots : AllAbsolute pm3.sandbox.minimal_read_roots
  pub forbidden_roots : AllAbsolute pm3.sandbox.forbidden_writable_roots

validate_choices_iff : (pm3 : Pm3Config) → (validate_choices pm3 ≡ ok tt) ↔ HasChoices pm3
unfolding validate_choices validate_sandbox_roots
validate_choices_iff pm3 =
    let minimal =
      reject_relative_roots_iff (codes "pm3.sandbox.minimal_read_roots")
        pm3.sandbox.minimal_read_roots in
    let forbidden =
      reject_relative_roots_iff (codes "pm3.sandbox.forbidden_writable_roots")
        pm3.sandbox.forbidden_writable_roots in
    (
      λ h. record {
        stop_signal = (contains_text_iff valid_signals pm3.stop_signal).0 (ground arith);
        liveness_poll = ground arith;
        liveness_threshold = ground arith;
        min_uptime = ground arith;
        max_restart_delay = ground arith;
        mode = (mode_iff pm3.sandbox.mode).0 (ground arith);
        read = (read_iff pm3.sandbox.read).0 (ground arith);
        some_minimal_roots = (empty_iff pm3.sandbox.minimal_read_roots).0 (ground arith);
        minimal_roots = minimal.0 (ground arith);
        forbidden_roots = forbidden.0 (ground arith);
      },
      λ u.
          let signal = (contains_text_iff valid_signals pm3.stop_signal).1 u.stop_signal in
          let mode = (mode_iff pm3.sandbox.mode).1 u.mode in
          let read = (read_iff pm3.sandbox.read).1 u.read in
          let some_roots = (empty_iff pm3.sandbox.minimal_read_roots).1 u.some_minimal_roots in
          let minimal_roots = minimal.1 u.minimal_roots in
          let forbidden_roots = forbidden.1 u.forbidden_roots in
          let poll = u.liveness_poll in
          let threshold = u.liveness_threshold in
          let min_uptime = u.min_uptime in
          let delay = u.max_restart_delay in
          ground (
            arith, signal, mode, read, some_roots, minimal_roots, forbidden_roots, poll, threshold,
            min_uptime, delay,
          ),
    )

-- Its programs, and the limits of its unit.
pub record HasPrograms (pm3 : Pm3Config) : Type 0 where
  pub seatbelt : pm3.sandbox.seatbelt_program ≢ []
  pub bwrap : pm3.sandbox.bwrap_program ≢ []
  pub launchctl : pm3.service.launchctl_path ≢ []
  pub systemctl : pm3.service.systemctl_path ≢ []
  pub loginctl : pm3.service.loginctl_path ≢ []
  pub schtasks : pm3.service.schtasks_path ≢ []
  pub taskkill : pm3.service.taskkill_path ≢ []
  pub sops : pm3.sops_program ≢ []
  pub osascript : pm3.notify.osascript_program ≢ []
  pub notify_send : pm3.notify.notify_send_program ≢ []
  pub restart_condition : Memᴰ pm3.service.restart_condition valid_restart_conditions
  pub max_tasks : 1 ≤ pm3.service.max_tasks

validate_programs_iff : (pm3 : Pm3Config) → (validate_programs pm3 ≡ ok tt) ↔ HasPrograms pm3
unfolding validate_programs
validate_programs_iff pm3 = (
  λ h. record {
    seatbelt = (empty_iff pm3.sandbox.seatbelt_program).0 (ground arith);
    bwrap = (empty_iff pm3.sandbox.bwrap_program).0 (ground arith);
    launchctl = (empty_iff pm3.service.launchctl_path).0 (ground arith);
    systemctl = (empty_iff pm3.service.systemctl_path).0 (ground arith);
    loginctl = (empty_iff pm3.service.loginctl_path).0 (ground arith);
    schtasks = (empty_iff pm3.service.schtasks_path).0 (ground arith);
    taskkill = (empty_iff pm3.service.taskkill_path).0 (ground arith);
    sops = (empty_iff pm3.sops_program).0 (ground arith);
    osascript = (empty_iff pm3.notify.osascript_program).0 (ground arith);
    notify_send = (empty_iff pm3.notify.notify_send_program).0 (ground arith);
    restart_condition =
        (contains_text_iff valid_restart_conditions pm3.service.restart_condition).0 (ground arith);
    max_tasks = ground arith;
  },
  λ u.
      let seatbelt = (empty_iff pm3.sandbox.seatbelt_program).1 u.seatbelt in
      let bwrap = (empty_iff pm3.sandbox.bwrap_program).1 u.bwrap in
      let launchctl = (empty_iff pm3.service.launchctl_path).1 u.launchctl in
      let systemctl = (empty_iff pm3.service.systemctl_path).1 u.systemctl in
      let loginctl = (empty_iff pm3.service.loginctl_path).1 u.loginctl in
      let schtasks = (empty_iff pm3.service.schtasks_path).1 u.schtasks in
      let taskkill = (empty_iff pm3.service.taskkill_path).1 u.taskkill in
      let sops = (empty_iff pm3.sops_program).1 u.sops in
      let osascript = (empty_iff pm3.notify.osascript_program).1 u.osascript in
      let notify_send = (empty_iff pm3.notify.notify_send_program).1 u.notify_send in
      let condition =
        (contains_text_iff valid_restart_conditions pm3.service.restart_condition).1
          u.restart_condition in
      let tasks = u.max_tasks in
      ground (
        arith, seatbelt, bwrap, launchctl, systemctl, loginctl, schtasks, taskkill, sops, osascript,
        notify_send, condition, tasks,
      ),
)

-- Its label.
pub record HasLabel (label : Text) : Type 0 where
  pub some_letters : label ≢ []
  pub no_dot : ¬ BeginsWith b'.' label
  pub letters : All (λ c. is_name_letter c ≡ true) label

validate_service_label_iff :
    (label : Text) → (validate_service_label label ≡ ok tt) ↔ HasLabel label
unfolding validate_service_label
validate_service_label_iff label =
    let letters = none_fails is_name_letter label in
    let dot = begins_iff b'.' label in
    (
      λ h. record {
        some_letters = (empty_iff label).0 (ground (arith, letters));
        no_dot = λ begins. let e = dot.1 begins in ground (arith, letters);
        letters = letters.0 (ground (arith));
      },
      λ u.
          let some_letters = (empty_iff label).1 u.some_letters in
          let no_dot = fails_iff u.no_dot dot in
          let all_letters = letters.1 u.letters in
          ground (arith, some_letters, no_dot, all_letters),
    )

-- A configuration that the program can run on.
pub record IsUsable (pm3 : Pm3Config) : Type 0 where
  pub paths : HasPaths pm3
  pub timeouts : HasTimeouts pm3
  pub intervals : HasIntervals pm3
  pub choices : HasChoices pm3
  pub label : HasLabel pm3.service.label
  pub programs : HasPrograms pm3

-- A configuration of pm3 is accepted exactly if each of its five directories is empty or begins with
-- a slash or a tilde; its home and its search path have no line break and the search path is not
-- empty; the waits, the poll intervals, the lines and bytes of a log that are read, the interval of the
-- logs' rotation, the channel's depth, the limit of a request's body, the threshold of failed probes,
-- the least uptime and the longest delay of a restart, and the unit's limit of tasks are at least one,
-- and the poll's ceiling is not below the poll's interval; the stop signal, the sandbox's mode and read
-- scope and the unit's restart condition are among the known ones; the sandbox's roots begin with a
-- slash, at least one of them to read; the unit's label is not empty, does not begin with a dot and has
-- only letters of a name; and none of the ten programs is empty.
pub validate_pm3_config_iff : (pm3 : Pm3Config) → (validate_pm3_config pm3 ≡ ok tt) ↔ IsUsable pm3
unfolding validate_pm3_config validate_budgets
validate_pm3_config_iff pm3 =
    let p = validate_paths pm3 in
    let b = validate_budgets pm3 in
    let c = validate_choices pm3 in
    let l = validate_service_label pm3.service.label in
    (
      λ h.
          let (h4, programs) = >>-eq-ok (p >> b >> c >> l) (validate_programs pm3) h in
          let (h3, label) = >>-eq-ok (p >> b >> c) l h4 in
          let (h2, choices) = >>-eq-ok (p >> b) c h3 in
          let (paths, budgets) = >>-eq-ok p b h2 in
          let (timeouts, intervals) =
            >>-eq-ok (validate_timeouts pm3) (validate_intervals pm3) budgets in
          record {
            paths = (validate_paths_iff pm3).0 paths;
            timeouts = (validate_timeouts_iff pm3).0 timeouts;
            intervals = (validate_intervals_iff pm3).0 intervals;
            choices = (validate_choices_iff pm3).0 choices;
            label = (validate_service_label_iff pm3.service.label).0 label;
            programs = (validate_programs_iff pm3).0 programs;
          },
      λ u. rw ((validate_paths_iff pm3).1 u.paths) (
          rw ((validate_timeouts_iff pm3).1 u.timeouts) (
            rw ((validate_intervals_iff pm3).1 u.intervals) (
              rw ((validate_choices_iff pm3).1 u.choices) (
                rw ((validate_service_label_iff pm3.service.label).1 u.label)
                  ((validate_programs_iff pm3).1 u.programs))))),
    )
