-- ===== src/Adapters/Examples.antt =====
-- The checks of the configuration at a concrete one.
use pm.Base.{◌≡◌, ◌↔◌, ok}
use pm.Adapters.Config.Accepted.{IsUsable, validate_pm3_config_iff}
use pm.Adapters.Config.Validate.{validate_pm3_config}
use pm.Adapters.Samples.{config}

validate_pm3_config_iff_example : (validate_pm3_config config ≡ ok tt) ↔ IsUsable config
validate_pm3_config_iff_example = validate_pm3_config_iff config
