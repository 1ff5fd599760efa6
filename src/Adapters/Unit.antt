-- ===== src/Adapters/Unit.antt =====
-- adapters/src/unit/spec.rs: the service unit of the daemon, and what the service managers report.
-- Paths are texts, as on Unix.
mod Examples
pub mod Command
pub mod Launchd
pub mod Systemd
pub mod Schtasks
pub mod Plan
use pm.Base.{
  ℕ, Bool, true, false, ◌&&◌, ◌==◌, Option, none, some, List, [], ◌∷◌, ◌++◌, filter, map, is_empty,
  Text, codes, concat, ◌||◌, text_eq, text_lt, starts_with, ends_with, trim, trim_end_matches,
  parse_unsigned, print_decimal, max_u32, ltb, if◌then◌else◌,
}
use pm.Adapters.Schedule.{split_once}

pub data UnitKind : Type 0 where
  launchd systemd win_schtasks : UnitKind

unfoldable pub as_str : UnitKind → Text
as_str launchd = codes "launchd"
as_str systemd = codes "systemd"
as_str win_schtasks = codes "schtasks"

unfoldable pub unit_dir : UnitKind → Text
unit_dir launchd = codes "Library/LaunchAgents"
unit_dir systemd = codes ".config/systemd/user"
unit_dir win_schtasks = codes ".pm3/service"

unfoldable pub unit_suffix : UnitKind → Text
unit_suffix launchd = codes "plist"
unit_suffix systemd = codes "service"
unit_suffix win_schtasks = codes "xml"

pub data LingerState : Type 0 where
  enabled unknown : LingerState

pub data UnitStatus : Type 0 where
  not_installed installed_not_running running : UnitStatus

unfoldable pub status_as_str : UnitStatus → Text
status_as_str not_installed = codes "not installed"
status_as_str installed_not_running = codes "installed, not running"
status_as_str running = codes "running"

pub record UnitSpec : Type 0 where
  pub kind : UnitKind
  pub label : Text
  pub unit_dir : Text
  pub program : Text
  pub config_path : Text
  pub working_directory : Text
  pub log_path : Text
  pub search_path : Text
  pub home : Text
  pub account : Text
  pub pm3_env : List (Text × Text)
  pub restart_delay_secs : ℕ
  pub restart_condition : Text
  pub umask : ℕ
  pub max_tasks : ℕ
  pub cpu_quota_percent : ℕ
  pub wait_for_network : Bool

-- `Path::join`
unfoldable pub join_path : Text → Text → Text
join_path base name =
    if starts_with (codes "/") name
    then name
    else if is_empty base || ends_with (codes "/") base
    then base ++ name
    else base ++ (codes "/" ++ name)

unfoldable pub unit_name : UnitSpec → Text
unfolding concat
unit_name spec = concat (spec.label ∷ codes "." ∷ unit_suffix spec.kind ∷ [])

unfoldable pub unit_path : UnitSpec → Text
unit_path spec = join_path spec.unit_dir (unit_name spec)

unfoldable pub wrapper_name : UnitSpec → Text
wrapper_name spec = spec.label ++ codes "-daemon.cmd"

unfoldable pub wrapper_path : UnitSpec → Text
wrapper_path spec = join_path spec.unit_dir (wrapper_name spec)

abbrev pub daemon_subcommand : Text
daemon_subcommand = codes "daemon"

abbrev pub config_flag : Text
config_flag = codes "--config"

unfoldable pub daemon_args : UnitSpec → List Text
daemon_args spec = daemon_subcommand ∷ config_flag ∷ spec.config_path ∷ []

unfoldable pub environment_pairs : UnitSpec → List (Text × Text)
environment_pairs spec = (codes "HOME", spec.home) ∷ (codes "PATH", spec.search_path) ∷ spec.pm3_env

unfoldable pub unit_dir_of : UnitKind → (home : Text) → Text
unit_dir_of kind home = join_path home (unit_dir kind)

-- The order of pairs of texts, and the sort by it.
abbrev pair_lt : Text × Text → Text × Text → Bool
pair_lt (m, a) (n, b) = if text_eq m n then text_lt a b else text_lt m n

unfoldable pub insert_pair : Text × Text → List (Text × Text) → List (Text × Text)
insert_pair p [] = p ∷ []
insert_pair p (q ∷ pairs) = if pair_lt q p then q ∷ insert_pair p pairs else p ∷ q ∷ pairs

unfoldable pub sort_pairs : List (Text × Text) → List (Text × Text)
unfolding insert_pair
sort_pairs [] = []
sort_pairs (p ∷ pairs) = insert_pair p (sort_pairs pairs)

unfoldable pub pm3_variables : List (Text × Text) → List (Text × Text)
unfolding sort_pairs
pm3_variables vars = sort_pairs (filter (λ v. starts_with (codes "PM3_") v.0) vars)

abbrev pub owned_dir : Option ℕ → Option Text
owned_dir none = none
owned_dir (some owner) = some (concat (codes "/run/user" ∷ codes "/" ∷ print_decimal owner ∷ []))

unfoldable pub runtime_dir_of : (declared : Option Text) (uid : Option ℕ) → Option Text
runtime_dir_of none uid = owned_dir uid
runtime_dir_of (some dir) uid = if is_empty dir then owned_dir uid else some dir

unfoldable pub parse_linger_state : (exit_success : Bool) (stdout : Text) → LingerState
parse_linger_state exit_success stdout =
    if exit_success && text_eq (trim stdout) (codes "yes") then enabled else unknown

-- `str::contains`
unfoldable pub contains_str : Text → Text → Bool
contains_str [] part = is_empty part
contains_str (c ∷ text) part =
    let rest = contains_str text part in if starts_with part (c ∷ text) then true else rest

abbrev pub launchd_pid_key : Text
launchd_pid_key = codes "\"PID\""

unfoldable pub parse_run_state : UnitKind → (exit_success : Bool) (stdout : Text) → Bool
parse_run_state launchd exit_success stdout =
    if exit_success then contains_str stdout launchd_pid_key else false
parse_run_state systemd exit_success stdout = text_eq (trim stdout) (codes "active")
parse_run_state win_schtasks exit_success stdout =
    if exit_success then contains_str stdout (codes "Running") else false

unfoldable pub parse_main_pid : Text → Option ℕ
parse_main_pid stdout = elim (parse_unsigned max_u32 (trim stdout)) [
  | none ↦ none
  | some pid ↦ if ltb 0 pid then some pid else none
]

-- A text without its last character.
unfoldable pub drop_last : Text → Text
drop_last [] = []
drop_last (c ∷ []) = []
drop_last (c ∷ d ∷ rest) = c ∷ drop_last (d ∷ rest)

unfoldable pub strip_return : Text → Text
unfolding drop_last
strip_return line = if ends_with (b'\r' ∷ []) line then drop_last line else line

-- `str::split('\n')`: the text up to the first line feed, and the parts behind it.
unfoldable pub split_lines : Text → Text × List Text
split_lines [] = ([], [])
split_lines (c ∷ text) =
    let (line, rest) = split_lines text in
    if c == b'\n' then ([], line ∷ rest) else (c ∷ line, rest)

-- The lines of the parts: the last is none when it is empty, and keeps its carriage return.
unfoldable pub lines_of : Text → List Text → List Text
unfolding strip_return
lines_of line [] = if is_empty line then [] else line ∷ []
lines_of line (next ∷ rest) = strip_return line ∷ lines_of next rest

-- `str::lines`
unfoldable pub lines : Text → List Text
unfolding split_lines lines_of
lines text = let (line, rest) = split_lines text in lines_of line rest

-- The loop of `parse_launchd_pid`.
unfoldable pub launchd_pid_in : List Text → Option ℕ
launchd_pid_in [] = none
launchd_pid_in (line ∷ rest) =
    let later = launchd_pid_in rest in
    elim (split_once b'=' line) [
      | none ↦ later
      | some (key, value) ↦
          if text_eq (trim key) launchd_pid_key
          then parse_unsigned max_u32 (trim (trim_end_matches (λ c. c == b';') (trim value)))
          else later
    ]

unfoldable pub parse_launchd_pid : Text → Option ℕ
unfolding launchd_pid_in lines
parse_launchd_pid stdout = launchd_pid_in (lines stdout)
