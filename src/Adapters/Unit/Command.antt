-- ===== src/Adapters/Unit/Command.antt =====
-- adapters/src/unit/command.rs: the commands of the service managers.
use pm.Base.{ℕ, Option, none, some, List, [], ◌∷◌, Text, codes, concat, print_decimal}
use pm.Adapters.Config.{ServiceConfig}

pub record UnitCommand : Type 0 where
  pub program : Text
  pub args : List Text
  pub env : List (Text × Text)

pub record UnitProgramSet : Type 0 where
  pub launchctl : Text
  pub systemctl : Text
  pub loginctl : Text
  pub schtasks : Text
  pub runtime_dir : Option Text
  pub uid : Option ℕ

unfoldable pub from_config : ServiceConfig → Option Text → Option ℕ → UnitProgramSet
from_config service runtime_dir uid = record {
  launchctl = service.launchctl_path;
  systemctl = service.systemctl_path;
  loginctl = service.loginctl_path;
  schtasks = service.schtasks_path;
  runtime_dir = runtime_dir;
  uid = uid;
}

unfoldable pub command : Text → List Text → UnitCommand
command program args = record { program = program; args = args; env = [] }

abbrev pub environment_of : Option Text → List (Text × Text)
environment_of none = []
environment_of (some dir) = (codes "XDG_RUNTIME_DIR", dir) ∷ []

unfoldable pub runtime_environment : UnitProgramSet → List (Text × Text)
runtime_environment programs = environment_of programs.runtime_dir

unfoldable pub user_scoped : UnitProgramSet → List Text → UnitCommand
unfolding command runtime_environment
user_scoped programs args = record (command programs.systemctl (codes "--user" ∷ args)) {
  env = runtime_environment programs;
}

unfoldable pub launchctl_load : UnitProgramSet → Text → UnitCommand
launchctl_load programs unit_path =
    command programs.launchctl (codes "load" ∷ codes "-w" ∷ unit_path ∷ [])

unfoldable pub launchctl_unload : UnitProgramSet → Text → UnitCommand
launchctl_unload programs unit_path =
    command programs.launchctl (codes "unload" ∷ codes "-w" ∷ unit_path ∷ [])

unfoldable pub launchctl_list : UnitProgramSet → Text → UnitCommand
launchctl_list programs label = command programs.launchctl (codes "list" ∷ label ∷ [])

unfoldable pub systemctl_daemon_reload : UnitProgramSet → UnitCommand
systemctl_daemon_reload programs = user_scoped programs (codes "daemon-reload" ∷ [])

unfoldable pub systemctl_enable_now : UnitProgramSet → Text → UnitCommand
systemctl_enable_now programs unit_name =
    user_scoped programs (codes "enable" ∷ codes "--now" ∷ unit_name ∷ [])

unfoldable pub systemctl_disable_now : UnitProgramSet → Text → UnitCommand
systemctl_disable_now programs unit_name =
    user_scoped programs (codes "disable" ∷ codes "--now" ∷ unit_name ∷ [])

unfoldable pub systemctl_is_active : UnitProgramSet → Text → UnitCommand
systemctl_is_active programs unit_name = user_scoped programs (codes "is-active" ∷ unit_name ∷ [])

unfoldable pub systemctl_show_main_pid : UnitProgramSet → Text → UnitCommand
systemctl_show_main_pid programs unit_name =
    user_scoped programs
      (codes "show" ∷ codes "-p" ∷ codes "MainPID" ∷ codes "--value" ∷ unit_name ∷ [])

unfoldable pub launchctl_kickstart : UnitProgramSet → Text → Option UnitCommand
launchctl_kickstart programs label = elim programs.uid [
  | none ↦ none
  | some uid ↦
      let target = concat (codes "gui/" ∷ print_decimal uid ∷ codes "/" ∷ label ∷ []) in
      some (command programs.launchctl (codes "kickstart" ∷ target ∷ []))
]

unfoldable pub loginctl_enable_linger : UnitProgramSet → UnitCommand
loginctl_enable_linger programs = command programs.loginctl (codes "enable-linger" ∷ [])

unfoldable pub loginctl_show_linger : UnitProgramSet → Option UnitCommand
loginctl_show_linger programs = elim programs.uid [
  | none ↦ none
  | some uid ↦ some (
      command programs.loginctl (
        codes "show-user" ∷ print_decimal uid ∷ codes "-p" ∷ codes "Linger" ∷ codes "--value" ∷ []))
]

unfoldable pub schtasks_create : UnitProgramSet → (task_name xml_path : Text) → UnitCommand
schtasks_create programs task_name xml_path =
    command programs.schtasks
      (codes "/Create" ∷ codes "/TN" ∷ task_name ∷ codes "/XML" ∷ xml_path ∷ codes "/F" ∷ [])

unfoldable pub schtasks_run : UnitProgramSet → Text → UnitCommand
schtasks_run programs task_name =
    command programs.schtasks (codes "/Run" ∷ codes "/TN" ∷ task_name ∷ [])

unfoldable pub schtasks_end : UnitProgramSet → Text → UnitCommand
schtasks_end programs task_name =
    command programs.schtasks (codes "/End" ∷ codes "/TN" ∷ task_name ∷ [])

unfoldable pub schtasks_delete : UnitProgramSet → Text → UnitCommand
schtasks_delete programs task_name =
    command programs.schtasks (codes "/Delete" ∷ codes "/TN" ∷ task_name ∷ codes "/F" ∷ [])

unfoldable pub schtasks_query : UnitProgramSet → Text → UnitCommand
schtasks_query programs task_name =
    command programs.schtasks
      (codes "/Query" ∷ codes "/TN" ∷ task_name ∷ codes "/V" ∷ codes "/FO" ∷ codes "LIST" ∷ [])
