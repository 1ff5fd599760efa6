-- ===== src/Usecases/Lifecycle/Removal.antt =====
-- delete.rs keeps the invariant of the table, on every branch.
use pm.Base.{Text, find, is_empty, Option-cases, Bool-cases, Result-cases, inl, inr}
use pm.Usecases.Delete.{delete_one, delete_app, remove_and_save, dependents_of}
use pm.Usecases.Ports.{Ports}
use pm.Usecases.Selector.{AppSelector, name as by_name}
use pm.Usecases.Stop.{StopOutcome, request_stop}
use pm.Usecases.Table.{ProcessTable, selects, find_record, write_record, remove, save_table}
use pm.Usecases.Table.Invariant.{IsTable}
use pm.Usecases.Table.Removal.{remove-IsTable, remove-restore-IsTable}
use pm.Usecases.Lifecycle.Records.{request_stop-Keeps}
use pm.Usecases.Lifecycle.Steps.{Leaves, write-IsTable}

module _ {W : Type 0} (ports : Ports W) where
  remove_and_save-IsTable :
      (table : ProcessTable) (name : Text) (outcome : StopOutcome) (w : W)
      → IsTable table
      → Leaves IsTable (remove_and_save ports table name outcome w)
  unfolding remove_and_save
  remove_and_save-IsTable table name outcome w t =
      elim (Option-cases (remove (by_name name) table).1) [
        | inl e ↦ rw (e, remove_and_save) tt
        | inr (r, e) ↦
            let table' = (remove (by_name name) table).0 in
            elim (Result-cases (save_table ports table' w).0) [
              | inl (o, g) ↦ rw (e, remove_and_save) (rw g (remove-IsTable (by_name name) table t))
              | inr (x, g) ↦
                  rw (e, remove_and_save) (rw g (remove-restore-IsTable (by_name name) table r t e))
            ]
      ]

  delete_one-IsTable :
      (table : ProcessTable) (name : Text) (w : W)
      → IsTable table
      → Leaves IsTable (delete_one ports table name w)
  unfolding delete_one find_record
  delete_one-IsTable table name w t =
      elim (Option-cases (find (selects (by_name name)) table.records)) [
        | inl absent ↦ rw (absent, delete_one) tt
        | inr (r, found) ↦
            let r' = (request_stop ports r w).1 in
            let w' = (request_stop ports r w).2 in
            let table' = write_record (selects (by_name name)) r' table in
            let k : IsTable table' =
              write-IsTable (selects (by_name name)) r r' table t found
                (request_stop-Keeps ports r w) in
            elim (Result-cases (request_stop ports r w).0) [
              | inl (o, e) ↦
                  rw (found, delete_one) (rw e (remove_and_save-IsTable table' name o w' k))
              | inr (x, e) ↦ rw (found, delete_one) (rw e k)
            ]
      ]

  pub delete_app-IsTable :
      (table : ProcessTable) (selector : AppSelector) (w : W)
      → IsTable table
      → Leaves IsTable (delete_app ports table selector w)
  unfolding delete_app find_record
  delete_app-IsTable table selector w t =
      elim (Option-cases (find (selects selector) table.records)) [
        | inl absent ↦ rw (absent, delete_app) t
        | inr (r, found) ↦ elim (Bool-cases (is_empty (dependents_of table r.runtime.name))) [
          | inl e ↦ rw (found, delete_app) (rw e (delete_one-IsTable table r.runtime.name w t))
          | inr e ↦ rw (found, delete_app) (rw e t)
        ]
      ]
