-- ===== src/Adapters/Unit/Plan/Targets.antt =====
-- The files that an installation writes, against those that are announced and those that are removed.
use pm.Base.{◌≡◌, refl, ap, Option, none, some, ◌∷◌, filter_map, Text}
use pm.Adapters.Unit.{
  UnitKind, launchd, systemd, win_schtasks, UnitSpec, LingerState, enabled, unknown, unit_path,
}
use pm.Adapters.Unit.Command.{UnitProgramSet}
use pm.Adapters.Unit.Plan.{
  UnitStep, write_step, remove_step, install_plan, install_steps, systemd_install_steps,
  uninstall_plan, uninstall_steps, write_targets, wrapper_targets,
}

abbrev pub written : UnitStep → Option Text
written (write_step dir path contents) = some path
written _ = none

abbrev pub removed : UnitStep → Option Text
removed (remove_step path) = some path
removed _ = none

install_steps-written :
    (kind : UnitKind) (spec : UnitSpec) (programs : UnitProgramSet) (dir path contents : Text)
    (unit_dir unit contents' : Text) (linger : LingerState)
    → filter_map written (
        install_steps kind spec programs
          (write_step dir path contents)
          (write_step unit_dir unit contents')
          linger)
      ≡ path ∷ unit ∷ wrapper_targets kind spec
unfolding install_steps systemd_install_steps
install_steps-written launchd spec programs dir path contents unit_dir unit contents' linger = refl
install_steps-written systemd spec programs dir path contents unit_dir unit contents' enabled = refl
install_steps-written systemd spec programs dir path contents unit_dir unit contents' unknown = refl
install_steps-written win_schtasks spec programs dir path contents unit_dir unit contents' linger =
    refl

uninstall_steps-removed :
    (kind : UnitKind) (spec : UnitSpec) (programs : UnitProgramSet)
    → filter_map removed (uninstall_steps kind spec programs)
      ≡ unit_path spec ∷ wrapper_targets kind spec
unfolding uninstall_steps
uninstall_steps-removed launchd spec programs = refl
uninstall_steps-removed systemd spec programs = refl
uninstall_steps-removed win_schtasks spec programs = refl

-- The files that the plan of an installation writes are those announced by `write_targets`, in this
-- order; and the plan of a removal removes all of them but the configuration.
pub install_plan-targets :
    (spec : UnitSpec) (programs : UnitProgramSet) (config_contents : Text) (linger : LingerState)
    → (filter_map written (install_plan spec programs config_contents linger) ≡ write_targets spec)
      × (spec.config_path ∷ filter_map removed (uninstall_plan spec programs) ≡ write_targets spec)
unfolding install_plan uninstall_plan write_targets
install_plan-targets spec programs config_contents linger = (
  install_steps-written spec.kind spec programs _ _ _ _ _ _ linger,
  ap (λ paths. spec.config_path ∷ paths) (uninstall_steps-removed spec.kind spec programs),
)
