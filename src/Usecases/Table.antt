-- ===== src/Usecases/Table.antt =====
-- usecases/src/table.rs and persist.rs
pub mod Ids
pub mod Invariant
pub mod Growth
pub mod Removal
pub mod Finds
pub mod Order
use pm.Base.{
  ℕ, Bool, true, false, Option, none, some, List, [], ◌∷◌, ◌++◌, map, find, Text, text_eq, Result,
  ok, err, saturating_add, max_u32, ltb, leb, ◌==◌, if◌then◌else◌,
}
use pm.Entities.Depgraph.{DependencyNode, topo_sort}
use pm.Entities.Runtime.{new}
use pm.Entities.Spec.{AppSpec, dependency_node}
use pm.Usecases.Ports.{Ports, UsecaseError, not_found, dump_error}
use pm.Usecases.Record.{ProcessRecord}
use pm.Usecases.Selector.{AppSelector, matches, to_string}

pub record ProcessTable : Type 0 where
  pub records : List ProcessRecord
  pub boot : Option Text

abbrev pub lowest_pm_id : ℕ
lowest_pm_id = 1

unfoldable pub empty : ProcessTable
empty = record { records = []; boot = none }

unfoldable pub from_records : List ProcessRecord → ProcessTable
from_records records = record { records = records; boot = none }

unfoldable pub remember_boot : Option Text → ProcessTable → ProcessTable
remember_boot boot table = record table { boot = boot }

-- The tests that `find` and `find_by_name` make of a record.
abbrev pub selects : AppSelector → ProcessRecord → Bool
selects selector r = matches selector r.runtime.pm_id r.runtime.name

abbrev pub has_name : Text → ProcessRecord → Bool
has_name name r = text_eq r.runtime.name name

unfoldable pub find_record : AppSelector → ProcessTable → Option ProcessRecord
find_record selector table = find (selects selector) table.records

unfoldable pub find_by_name : Text → ProcessTable → Option ProcessRecord
find_by_name name table = find (has_name name) table.records

-- What a write through the reference of `find_mut` does: the first record that the test selects
-- is replaced.
unfoldable pub replace_first :
    (ProcessRecord → Bool) → ProcessRecord → List ProcessRecord → List ProcessRecord
replace_first p r [] = []
replace_first p r (x ∷ xs) = if p x then r ∷ xs else x ∷ replace_first p r xs

unfoldable pub write_record : (ProcessRecord → Bool) → ProcessRecord → ProcessTable → ProcessTable
unfolding replace_first
write_record p r table = record table { records = replace_first p r table.records }

unfoldable pub require : AppSelector → ProcessTable → Result ProcessRecord UsecaseError
unfolding find_record
require selector table = elim (find_record selector table) [
  | none ↦ err (not_found (to_string selector))
  | some r ↦ ok r
]

-- `sort_unstable` on numbers.
insert_sorted : ℕ → List ℕ → List ℕ
insert_sorted n [] = n ∷ []
insert_sorted n (m ∷ ms) = if leb n m then n ∷ m ∷ ms else m ∷ insert_sorted n ms

sort : List ℕ → List ℕ
unfolding insert_sorted
sort [] = []
sort (n ∷ ns) = insert_sorted n (sort ns)

-- The `for` loop with its `break`.
free_from : ℕ → List ℕ → ℕ
free_from candidate [] = candidate
free_from candidate (used ∷ taken) =
    let rest =
      free_from (if used == candidate then saturating_add max_u32 candidate 1 else candidate)
        taken in
    if ltb candidate used then candidate else rest

abbrev pub pm_ids : List ProcessRecord → List ℕ
pm_ids records = map (λ r. r.runtime.pm_id) records

unfoldable pub lowest_free_pm_id : ProcessTable → ℕ
unfolding sort free_from
lowest_free_pm_id table = free_from lowest_pm_id (sort (pm_ids table.records))

unfoldable pub upsert : AppSpec → ℕ → ProcessTable → ProcessTable × ℕ
unfolding find_by_name write_record
upsert spec now_ms table = elim (find_by_name spec.name table) [
  | some existing ↦ (
    write_record (has_name spec.name) (record existing { spec = spec }) table,
    existing.runtime.pm_id,
  )
  | none ↦
      let pm_id = lowest_free_pm_id table in
      let r : ProcessRecord = record { spec = spec; runtime = new pm_id spec.name now_ms } in
      (record table { records = table.records ++ r ∷ [] }, pm_id)
]

pub remove_first : (ProcessRecord → Bool) → List ProcessRecord → List ProcessRecord
remove_first p [] = []
remove_first p (x ∷ xs) = if p x then xs else x ∷ remove_first p xs

unfoldable pub remove : AppSelector → ProcessTable → ProcessTable × Option ProcessRecord
unfolding remove_first find_record
remove selector table = (
  record table { records = remove_first (selects selector) table.records },
  find_record selector table,
)

unfoldable pub restore : ProcessRecord → ProcessTable → ProcessTable
restore r table = record table { records = table.records ++ r ∷ [] }

unfoldable pub dependency_nodes : ProcessTable → List DependencyNode
dependency_nodes table = map (λ r. dependency_node r.spec) table.records

unfoldable pub names_in_table_order : ProcessTable → List Text
names_in_table_order table = map (λ r. r.runtime.name) table.records

-- `none` is an internal error of the sort.
unfoldable pub dependency_order : ProcessTable → Option (List Text)
unfolding dependency_nodes names_in_table_order
dependency_order table = elim (topo_sort (dependency_nodes table)) [
  | none ↦ none
  | some (ok order) ↦ some order
  | some (err error) ↦ some (names_in_table_order table)
]

unfoldable pub save_table :
    {W : Type 0} → Ports W → ProcessTable → W → Result (Unit {0}) UsecaseError × W
save_table ports table w =
    let (saved, w') = ports.save table.records table.boot w in
    (elim saved [ ok _ ↦ ok tt | err e ↦ err (dump_error e) ], w')
