-- ===== src/Adapters/Unit/Examples.antt =====
-- An installation of the daemon, and texts that the service managers print.
use pm.Base.{
  ◌≡◌, refl, false, none, some, [], ◌∷◌, filter_map, codes, starts_with, ends_with, trim,
  trim_end_matches, is_whitespace, parse_unsigned, text_eq,
}
use pm.Adapters.Schedule.{split_once}
use pm.Adapters.Unit.{
  UnitSpec, systemd, unknown, unit_path, unit_name, unit_suffix, join_path, parse_launchd_pid,
  launchd_pid_in, lines, split_lines, lines_of, strip_return,
}
use pm.Adapters.Unit.Command.{UnitProgramSet}
use pm.Adapters.Unit.Launchd.{escape_xml}
use pm.Adapters.Unit.Plan.{install_plan, uninstall_plan, write_targets}
use pm.Adapters.Unit.Plan.Targets.{written, removed, install_plan-targets}
use pm.Adapters.Unit.Systemd.{print_octal}

abbrev unit : UnitSpec
unit = record {
  kind = systemd;
  label = codes "pm3";
  unit_dir = codes "/home/me/units";
  program = codes "/bin/pm3";
  config_path = codes "/home/me/pm3.yaml";
  working_directory = codes "/home/me";
  log_path = codes "/home/me/log";
  search_path = codes "/bin";
  home = codes "/home/me";
  account = codes "me";
  pm3_env = [];
  restart_delay_secs = 5;
  restart_condition = codes "always";
  umask = 63;
  max_tasks = 10;
  cpu_quota_percent = 0;
  wait_for_network = false;
}

abbrev programs : UnitProgramSet
programs = record {
  launchctl = codes "launchctl";
  systemctl = codes "systemctl";
  loginctl = codes "loginctl";
  schtasks = codes "schtasks";
  runtime_dir = none;
  uid = some 501;
}

install_plan-targets_example :
    (filter_map written (install_plan unit programs (codes "x") unknown) ≡ write_targets unit)
    × (unit.config_path ∷ filter_map removed (uninstall_plan unit programs) ≡ write_targets unit)
install_plan-targets_example = install_plan-targets unit programs (codes "x") unknown

unit_path-systemd : unit_path unit ≡ codes "/home/me/units/pm3.service"
unfolding unit_path join_path starts_with unit_name ends_with unit_suffix
unit_path-systemd = refl

escape_xml-tag : escape_xml (codes "<a&b>") ≡ codes "&lt;a&amp;b&gt;"
unfolding escape_xml
escape_xml-tag = refl

print_octal-umask : print_octal 63 ≡ codes "0077"
unfolding print_octal
print_octal-umask = refl

parse_launchd_pid-list : parse_launchd_pid (codes "{\n\t\"PID\" = 42;\n}") ≡ some 42
unfolding parse_launchd_pid launchd_pid_in lines split_lines lines_of strip_return split_once trim
    trim_end_matches is_whitespace parse_unsigned ends_with starts_with text_eq
parse_launchd_pid-list = refl
