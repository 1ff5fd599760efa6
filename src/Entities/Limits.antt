-- ===== src/Entities/Limits.antt =====
-- entities/src/process/limits.rs
use pm.Base.{
  ℕ, ◌*◌, ◌/◌, Bool, not, ◌&&◌, ◌||◌, Option, none, some, [], ◌∷◌, map, Text, codes, text_eq, trim,
  is_ascii_digit, is_whitespace, to_ascii_uppercase, parse_unsigned, max_u64, checked_mul, ltb,
  if◌then◌else◌,
}

abbrev pub kib : ℕ
kib = 1024

abbrev pub mib : ℕ
mib = 1024 * kib

abbrev pub gib : ℕ
gib = 1024 * mib

-- The text before the first character that is neither a digit nor white space, and the rest.
unfoldable pub split_unit : Text → Text × Text
unfolding is_ascii_digit is_whitespace
split_unit [] = ([], [])
split_unit (c ∷ raw) =
    let (digits, unit) = split_unit raw in
    if not (is_ascii_digit c) && not (is_whitespace c) then ([], c ∷ raw) else (c ∷ digits, unit)

unfoldable pub unit_size : Text → Option ℕ
unfolding trim to_ascii_uppercase text_eq
unit_size unit =
    let upper = map to_ascii_uppercase (trim unit) in
    if text_eq upper [] || text_eq upper (codes "B")
    then some 1
    else if text_eq upper (codes "K") || text_eq upper (codes "KB") || text_eq upper (codes "KIB")
    then some kib
    else if text_eq upper (codes "M") || text_eq upper (codes "MB") || text_eq upper (codes "MIB")
    then some mib
    else if text_eq upper (codes "G") || text_eq upper (codes "GB") || text_eq upper (codes "GIB")
    then some gib
    else none

-- `(kib > 0).then_some(kib)` for the whole kibibytes of an amount of units.
limit_of : ℕ → ℕ → Option ℕ
limit_of amount size = elim (checked_mul max_u64 amount size) [
  | none ↦ none
  | some bytes ↦ if ltb 0 (bytes / kib) then some (bytes / kib) else none
]

unfoldable pub parse_memory_limit : Text → Option ℕ
unfolding split_unit unit_size limit_of parse_unsigned trim
parse_memory_limit raw =
    let (digits, unit) = split_unit (trim raw) in
    elim (parse_unsigned max_u64 (trim digits)) [
      | none ↦ none
      | some amount ↦ elim (unit_size unit) [ none ↦ none | some size ↦ limit_of amount size ]
    ]

pub breaches_memory_limit : ℕ → ℕ → Bool
breaches_memory_limit limit_kib rss_kib = ltb limit_kib rss_kib
