-- ===== src/Usecases/Delete.antt =====
-- usecases/src/delete.rs. `none` is an internal error of the source.
use pm.Base.{
  Option, none, some, List, map, filter, any, is_empty, Text, text_eq, Result, ok, err,
  if◌then◌else◌,
}
use pm.Usecases.Ports.{Ports, UsecaseError, not_found, still_depended_on}
use pm.Usecases.Selector.{AppSelector, to_string, name as by_name}
use pm.Usecases.Stop.{StopOutcome, request_stop}
use pm.Usecases.Table.{
  ProcessTable, selects, find_record, write_record, remove, restore, save_table,
}

unfoldable pub dependents_of : ProcessTable → Text → List Text
dependents_of table name =
    map (λ r. r.runtime.name)
      (filter (λ r. any (λ dep. text_eq dep name) r.spec.depends_on) table.records)

module _ {W : Type 0} (ports : Ports W) where
  -- The part of `delete_one` after the stop: the record is removed, and put back at the end of
  -- the table if that cannot be saved.
  unfoldable pub remove_and_save :
      ProcessTable
      → Text
      → StopOutcome
      → W
      → Option (Result StopOutcome UsecaseError × ProcessTable × W)
  remove_and_save table name outcome w =
      let (table', removed) = remove (by_name name) table in
      let (saved, w') = save_table ports table' w in
      elim removed [
        | none ↦ none
        | some r ↦ elim saved [
          | ok _ ↦ some (ok outcome, table', w')
          | err e ↦ some (err e, restore r table', w')
        ]
      ]

  unfoldable pub delete_one :
      ProcessTable → Text → W → Option (Result StopOutcome UsecaseError × ProcessTable × W)
  delete_one table name w = elim (find_record (by_name name) table) [
    | none ↦ none
    | some r ↦
        let (attempt, r', w') = request_stop ports r w in
        let table' = write_record (selects (by_name name)) r' table in
        let rest = λ (outcome : StopOutcome). remove_and_save table' name outcome w' in
        elim attempt [ err e ↦ some (err e, table', w') | ok outcome ↦ rest outcome ]
  ]

  unfoldable pub delete_app :
      ProcessTable → AppSelector → W → Option (Result StopOutcome UsecaseError × ProcessTable × W)
  delete_app table selector w = elim (find_record selector table) [
    | none ↦ some (err (not_found (to_string selector)), table, w)
    | some r ↦
        if is_empty (dependents_of table r.runtime.name)
        then delete_one table r.runtime.name w
        else some
            (err (still_depended_on r.runtime.name (dependents_of table r.runtime.name)), table, w)
  ]
