-- ===== src/Entities/Roots.antt =====
-- entities/src/sandbox/roots.rs, as built where the target is not Windows.
pub mod Cover
pub mod Components
use pm.Base.{
  ℕ, Bool, true, false, Option, none, some, List, [], ◌∷◌, Text, codes, text_eq, starts_with,
  strip_prefix, trim_end_matches, is_empty, ◌==◌, if◌then◌else◌,
}

abbrev pub slash : ℕ
slash = b'/'

abbrev pub root_path : Text
root_path = codes "/"

unfoldable pub normalize_root : Text → Text
unfolding trim_end_matches
normalize_root root =
    let trimmed = trim_end_matches (λ c. c == slash) root in
    if is_empty trimmed then root_path else trimmed

unfoldable pub is_absolute_path : Text → Bool
unfolding starts_with
is_absolute_path path = starts_with root_path path

ends_at_boundary : Text → Bool
unfolding starts_with
ends_at_boundary rest = if is_empty rest then true else starts_with root_path rest

unfoldable pub covers_path : Text → Text → Bool
unfolding ends_at_boundary
covers_path parent child =
    if text_eq (normalize_root parent) root_path
    then true
    else elim (strip_prefix (normalize_root parent) (normalize_root child)) [
      | none ↦ false
      | some rest ↦ ends_at_boundary rest
    ]
