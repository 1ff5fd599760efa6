-- ===== src/Entities/Ready.antt =====
-- entities/src/process/ready.rs
use pm.Base.{
  ℕ, Bool, true, ◌||◌, List, [], ◌∷◌, ◌++◌, Text, codes, trim, is_empty, print_decimal, Result, ok,
  err, ◌==◌, if◌then◌else◌,
}
use pm.Entities.SpecError.{
  SpecError, exec_liveness_probe, empty_ready_probe, invalid_ready_endpoint,
}

pub data ReadyProbe : Type 0 where
  exec : (command : List Text) → ReadyProbe
  tcp : (host : Text) (port : ℕ) → ReadyProbe

abbrev pub blank_command : List Text → Bool
blank_command [] = true
blank_command (program ∷ args) = is_empty (trim program)

unfoldable pub validate_probe : Text → ReadyProbe → Result (Unit {0}) SpecError
validate_probe app (exec command) =
    if blank_command command then err (empty_ready_probe app) else ok tt
validate_probe app (tcp host port) =
    if is_empty (trim host) || port == 0
    then err (invalid_ready_endpoint app (host ++ (codes ":" ++ print_decimal port)))
    else ok tt

unfoldable pub validate_liveness_probe : Text → ReadyProbe → Result (Unit {0}) SpecError
unfolding validate_probe
validate_liveness_probe app (exec command) = err (exec_liveness_probe app)
validate_liveness_probe app (tcp host port) = validate_probe app (tcp host port)
