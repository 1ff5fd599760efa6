-- ===== src/Entities/Secret.antt =====
-- entities/src/process/secret.rs
pub mod Hides
use pm.Base.{
  ℕ, ◌-◌, List, [], ◌∷◌, ◌++◌, Text, codes, length, take, drop, print_decimal, ltb, if◌then◌else◌,
}

abbrev elided : Text
elided = codes ".."

abbrev pub min_maskable_chars : ℕ
min_maskable_chars = 12

abbrev pub visible_chars : ℕ
visible_chars = 4

unfoldable pub mask_secret : Text → Text
mask_secret value =
    let chars = length value in
    if ltb chars min_maskable_chars
    then elided ++ (codes " " ++ print_decimal chars)
    else take visible_chars value
      ++ (elided ++ (drop (chars - visible_chars) value ++ (codes " " ++ print_decimal chars)))
