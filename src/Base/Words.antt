-- ===== src/Base/Words.antt =====
-- Saturating arithmetic; the first argument is the type's MAX.
use Prim.Native.Nat.{ℕ, ◌+◌, ◌-◌, ◌*◌}
use mathlib.Core.Option.{Option, none, some}
use pm.Base.Tests.{ltb, if◌then◌else◌}

abbrev pub saturating_add : ℕ → ℕ → ℕ → ℕ
saturating_add limit a b = if ltb limit (a + b) then limit else a + b

abbrev pub saturating_mul : ℕ → ℕ → ℕ → ℕ
saturating_mul limit a b = if ltb limit (a * b) then limit else a * b

abbrev pub checked_mul : ℕ → ℕ → ℕ → Option ℕ
checked_mul limit a b = if ltb limit (a * b) then none else some (a * b)

-- `a.checked_sub(b)` on an unsigned type.
abbrev pub checked_sub : ℕ → ℕ → Option ℕ
checked_sub a b = if ltb a b then none else some (a - b)
