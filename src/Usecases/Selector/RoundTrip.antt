-- ===== src/Usecases/Selector/RoundTrip.antt =====
-- A selector and the text that names it.
use pm.Base.{
  ℕ, ◌≤◌, ◌≡◌, refl, Text, text_eq_iff, print_decimal, is_ascii_digit, max_u32, ok, arith,
}
use pm.Base.Decimal.{print_decimal-head, parse_unsigned-print_decimal}
use pm.Entities.Spec.{validate_app_name, reserved_all_selector}
use pm.Usecases.Selector.{AppSelector, every, id, name, parse, to_string}

-- What a selector may hold: an id that a u32 holds, or a name that a spec may have.
abbrev pub IsNameable : AppSelector → Type 0
IsNameable every = Unit
IsNameable (id n) = n ≤ max_u32
IsNameable (name n) = validate_app_name n ≡ ok tt

parse-id : (n : ℕ) → n ≤ max_u32 → parse (print_decimal n) ≡ id n
unfolding parse is_ascii_digit
parse-id n h =
    let (c, t, e, d) = print_decimal-head n in
    ground (
      arith,
      parse_unsigned-print_decimal max_u32 n h,
      text_eq_iff (print_decimal n) reserved_all_selector,
    )

parse-name : (n : Text) → validate_app_name n ≡ ok tt → parse n ≡ name n
unfolding parse validate_app_name
parse-name n h = ground arith

-- The text of a selector parses back to it: of the selector of every app, of an id that a u32
-- holds, and of a name that `validate_app_name` accepts, which is thus never read as an id or as
-- the selector of every app.
pub parse-to_string : (s : AppSelector) → IsNameable s → parse (to_string s) ≡ s
unfolding to_string
parse-to_string every h = unfold parse in refl
parse-to_string (id n) h = parse-id n h
parse-to_string (name n) h = parse-name n h
