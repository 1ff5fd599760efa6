-- ===== src/Adapters/Presenter/Examples.antt =====
-- Fields of a table on concrete values.
use pm.Base.{◌≡◌, refl, some, true, codes, print_decimal, text_eq}
use pm.Adapters.Presenter.{
  format_memory, format_uptime, format_sandbox_flags, format_env_origin, write_flag, read_flag,
  network_flag,
}
use pm.Entities.Spec.{sealed}

format_memory-mib : format_memory (some 1536) ≡ codes "1.5M"
unfolding format_memory print_decimal
format_memory-mib = refl

format_uptime-hours : format_uptime (some 7200000) ≡ codes "2h"
unfolding format_uptime print_decimal
format_uptime-hours = refl

format_sandbox_flags-workspace :
    format_sandbox_flags (codes "workspace-write") (codes "full") true ≡ codes "W/R/N"
unfolding format_sandbox_flags write_flag read_flag network_flag text_eq
format_sandbox_flags-workspace = refl

format_env_origin-sealed : format_env_origin sealed 1 ≡ codes "encrypted, not opened (1 value)"
unfolding format_env_origin print_decimal
format_env_origin-sealed = refl
