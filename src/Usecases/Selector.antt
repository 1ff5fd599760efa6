-- ===== src/Usecases/Selector.antt =====
-- usecases/src/selector.rs
pub mod RoundTrip
use pm.Base.{
  ℕ, Bool, true, false, Option, none, some, Text, text_eq, parse_unsigned, print_decimal, max_u32,
  ◌==◌, if◌then◌else◌,
}
use pm.Entities.Spec.{reserved_all_selector}

pub data AppSelector : Type 0 where
  every : AppSelector
  id : ℕ → AppSelector
  name : Text → AppSelector

unfoldable pub parse : Text → AppSelector
unfolding text_eq
parse raw =
    if text_eq raw reserved_all_selector
    then every
    else elim (parse_unsigned max_u32 raw) [ none ↦ name raw | some n ↦ id n ]

abbrev pub matches : AppSelector → ℕ → Text → Bool
matches every pm_id n = false
matches (id i) pm_id n = i == pm_id
matches (name candidate) pm_id n = text_eq candidate n

-- `impl Display`
unfoldable pub to_string : AppSelector → Text
to_string every = reserved_all_selector
to_string (id i) = print_decimal i
to_string (name n) = n
