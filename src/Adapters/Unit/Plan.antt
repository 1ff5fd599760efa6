-- ===== src/Adapters/Unit/Plan.antt =====
-- adapters/src/unit/plan.rs: the steps that install and remove the daemon.
pub mod Targets
use pm.Base.{Option, none, some, List, [], ◌∷◌, ◌++◌, Text}
use pm.Adapters.Unit.{
  UnitSpec, UnitKind, launchd, systemd, win_schtasks, LingerState, enabled, unknown, unit_name,
  unit_path, wrapper_path,
}
use pm.Adapters.Unit.Command.{
  UnitCommand, UnitProgramSet, launchctl_load, launchctl_unload, launchctl_list,
  systemctl_daemon_reload, systemctl_enable_now, systemctl_disable_now, systemctl_is_active,
  systemctl_show_main_pid, loginctl_enable_linger, schtasks_create, schtasks_run, schtasks_end,
  schtasks_delete, schtasks_query,
}
use pm.Adapters.Unit.Launchd.{render_plist}
use pm.Adapters.Unit.Schtasks.{render_task_xml, render_wrapper}
use pm.Adapters.Unit.Systemd.{render_unit}

pub data UnitStep : Type 0 where
  write_step : (dir path contents : Text) → UnitStep
  remove_step : (path : Text) → UnitStep
  run_step try_run_step : UnitCommand → UnitStep

unfoldable pub contents_for : UnitKind → UnitSpec → Text
contents_for launchd spec = render_plist spec
contents_for systemd spec = render_unit spec
contents_for win_schtasks spec = render_task_xml spec

unfoldable pub render_unit_contents : UnitSpec → Text
unfolding contents_for
render_unit_contents spec = contents_for spec.kind spec

unfoldable pub systemd_install_steps :
    UnitSpec → UnitProgramSet → (settle write : UnitStep) → LingerState → List UnitStep
systemd_install_steps spec programs settle write enabled =
    settle
    ∷ write
    ∷ run_step (systemctl_daemon_reload programs)
    ∷ run_step (systemctl_enable_now programs (unit_name spec))
    ∷ []
systemd_install_steps spec programs settle write unknown =
    settle
    ∷ write
    ∷ run_step (systemctl_daemon_reload programs)
    ∷ run_step (systemctl_enable_now programs (unit_name spec))
    ∷ try_run_step (loginctl_enable_linger programs)
    ∷ []

-- The steps of `install_plan` behind the first two, by the kind of unit.
unfoldable pub install_steps :
    UnitKind → UnitSpec → UnitProgramSet → (settle write : UnitStep) → LingerState → List UnitStep
unfolding systemd_install_steps
install_steps launchd spec programs settle write linger =
    settle ∷ write ∷ run_step (launchctl_load programs (unit_path spec)) ∷ []
install_steps systemd spec programs settle write linger =
    systemd_install_steps spec programs settle write linger
install_steps win_schtasks spec programs settle write linger =
    settle
    ∷ write
    ∷ write_step spec.unit_dir (wrapper_path spec) (render_wrapper spec)
    ∷ run_step (schtasks_create programs spec.label (unit_path spec))
    ∷ run_step (schtasks_run programs spec.label)
    ∷ []

unfoldable pub install_plan :
    UnitSpec → UnitProgramSet → (config_contents : Text) → LingerState → List UnitStep
unfolding install_steps
install_plan spec programs config_contents linger =
    install_steps spec.kind spec programs
      (write_step spec.working_directory spec.config_path config_contents)
      (write_step spec.unit_dir (unit_path spec) (render_unit_contents spec)) linger

-- The steps of `uninstall_plan`, by the kind of unit.
unfoldable pub uninstall_steps : UnitKind → UnitSpec → UnitProgramSet → List UnitStep
uninstall_steps launchd spec programs =
    try_run_step (launchctl_unload programs (unit_path spec)) ∷ remove_step (unit_path spec) ∷ []
uninstall_steps systemd spec programs =
    try_run_step (systemctl_disable_now programs (unit_name spec))
    ∷ remove_step (unit_path spec)
    ∷ try_run_step (systemctl_daemon_reload programs)
    ∷ []
uninstall_steps win_schtasks spec programs =
    try_run_step (schtasks_end programs spec.label)
    ∷ try_run_step (schtasks_delete programs spec.label)
    ∷ remove_step (unit_path spec)
    ∷ remove_step (wrapper_path spec)
    ∷ []

unfoldable pub uninstall_plan : UnitSpec → UnitProgramSet → List UnitStep
unfolding uninstall_steps
uninstall_plan spec programs = uninstall_steps spec.kind spec programs

unfoldable pub status_command_of : UnitKind → UnitSpec → UnitProgramSet → UnitCommand
status_command_of launchd spec programs = launchctl_list programs spec.label
status_command_of systemd spec programs = systemctl_is_active programs (unit_name spec)
status_command_of win_schtasks spec programs = schtasks_query programs spec.label

unfoldable pub status_command : UnitSpec → UnitProgramSet → UnitCommand
unfolding status_command_of
status_command spec programs = status_command_of spec.kind spec programs

unfoldable pub pid_command_of : UnitKind → UnitSpec → UnitProgramSet → Option UnitCommand
pid_command_of launchd spec programs = some (launchctl_list programs spec.label)
pid_command_of systemd spec programs = some (systemctl_show_main_pid programs (unit_name spec))
pid_command_of win_schtasks spec programs = none

unfoldable pub supervised_pid_command : UnitSpec → UnitProgramSet → Option UnitCommand
unfolding pid_command_of
supervised_pid_command spec programs = pid_command_of spec.kind spec programs

abbrev pub wrapper_targets : UnitKind → UnitSpec → List Text
wrapper_targets win_schtasks spec = wrapper_path spec ∷ []
wrapper_targets _ spec = []

unfoldable pub write_targets : UnitSpec → List Text
write_targets spec = (spec.config_path ∷ unit_path spec ∷ []) ++ wrapper_targets spec.kind spec
