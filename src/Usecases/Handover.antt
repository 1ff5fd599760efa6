-- ===== src/Usecases/Handover.antt =====
-- usecases/src/handover.rs
pub mod Partition
use pm.Base.{
  ℕ, ◌+◌, Option, none, some, List, [], ◌∷◌, ◌++◌, find, filter, length, is_empty, not, Text, codes,
  text_eq, print_decimal, join, ◌==◌, if◌then◌else◌,
}

pub record ServiceSnapshot : Type 0 where
  pub name : Text
  pub pid : Option ℕ

pub record HandoverComparison : Type 0 where
  pub adopted : List Text
  pub restarted : List Text
  pub lost : List Text

pub data HandoverChange : Type 0 where
  adopted restarted lost idle : HandoverChange

-- The match on the two process ids.
abbrev pub change_of : Option ℕ → Option ℕ → HandoverChange
change_of (some had) (some has) = if had == has then adopted else restarted
change_of none (some has) = restarted
change_of (some had) none = lost
change_of none none = idle

unfoldable pub classify_handover : Option ℕ → Option ServiceSnapshot → HandoverChange
classify_handover before none = lost
classify_handover before (some survivor) = change_of before survivor.pid

unfoldable pub survivor_of : List ServiceSnapshot → ServiceSnapshot → Option ServiceSnapshot
survivor_of after row = find (λ candidate. text_eq candidate.name row.name) after

-- The body of the loop: the name of a row goes to the list of its change.
unfoldable pub note_change : HandoverChange → Text → HandoverComparison → HandoverComparison
note_change adopted name c = record c { adopted = name ∷ c.adopted }
note_change restarted name c = record c { restarted = name ∷ c.restarted }
note_change lost name c = record c { lost = name ∷ c.lost }
note_change idle name c = c

unfoldable pub compare_handover : List ServiceSnapshot → List ServiceSnapshot → HandoverComparison
unfolding classify_handover survivor_of note_change
compare_handover [] after = record { adopted = []; restarted = []; lost = [] }
compare_handover (row ∷ before) after =
    note_change (classify_handover row.pid (survivor_of after row)) row.name
      (compare_handover before after)

unfoldable pub describe_group : Text → List Text → Text
describe_group label names =
    if is_empty names
    then []
    else label
      ++ (codes " " ++ (print_decimal (length names) ++ (codes ": " ++ join (codes ", ") names)))

unfoldable pub describe_handover : HandoverComparison → Text
unfolding describe_group
describe_handover c =
    if length c.adopted + length c.restarted + length c.lost == 0
    then codes "no managed services to reclaim"
    else join (codes "\n") (
        filter (λ line. not (is_empty line))
          (describe_group (codes "adopted") c.adopted
            ∷ describe_group (codes "restarted") c.restarted
            ∷ describe_group (codes "lost") c.lost
            ∷ []))
