-- ===== src/Usecases/Lifecycle/Deletion.antt =====
-- delete.rs: what a deletion leaves of the table, on each of its branches.
use pm.Base.{
  ◌≡◌, refl, ◌∙◌, false, Option, none, some, Text, text_eq, text_eq_refl, is_empty, ◌⊎◌, find,
  Result, err, Bool-cases, Result-cases, inl, inr,
}
use pm.Usecases.Delete.{delete_app, delete_one, remove_and_save, dependents_of}
use pm.Usecases.Lifecycle.Records.{request_stop-Keeps}
use pm.Usecases.Lifecycle.Steps.{write-IsTable}
use pm.Usecases.Ports.{Ports, UsecaseError}
use pm.Usecases.Record.{ProcessRecord}
use pm.Usecases.Selector.{AppSelector, name as by_name}
use pm.Usecases.Stop.{StopOutcome, request_stop}
use pm.Usecases.Table.{
  ProcessTable, selects, find_record, find_by_name, write_record, remove, save_table,
}
use pm.Usecases.Table.Finds.{
  find_other-write_record, find_other-remove, find_other-restore, find_by_name-remove,
  remove-write_record, find_record-by_name,
}
use pm.Usecases.Table.Invariant.{IsTable}

-- What a deletion of `name` ends with: an error, or a table without the name, and in both cases the
-- record of the name `n` as it was. An internal error of the source is not among its ends.
abbrev pub Deletes :
    {W : Type 0}
    → (name n : Text) → ProcessTable
    → Option (Result StopOutcome UsecaseError × ProcessTable × W)
    → Type 0
Deletes name n table none = ⊥
Deletes name n table (some (result, table', w)) =
    (((e : UsecaseError) × (result ≡ err e)) ⊎ (find_by_name name table' ≡ none))
    × (find_by_name n table' ≡ find_by_name n table)

module _ {W : Type 0} (ports : Ports W) where
  remove_and_save-Deletes :
      (table : ProcessTable) (r : ProcessRecord) (name n : Text) (outcome : StopOutcome) (w : W)
      → IsTable table
      → (remove (by_name name) table).1 ≡ some r
      → r.runtime.name ≡ name
      → text_eq name n ≡ false
      → Deletes name n table (remove_and_save ports table name outcome w)
  unfolding remove_and_save
  remove_and_save-Deletes table r name n outcome w t e named apart =
      let selector = by_name name in
      let other : text_eq r.runtime.name n ≡ false = rw named apart in
      let table' = (remove selector table).0 in
      let kept = find_other-remove r n other selector table e in
      let gone = find_by_name-remove selector table r t.distinct_names e in
      elim (Result-cases (save_table ports table' w).0) [
        | inl (o, g) ↦ rw (e, remove_and_save) (rw g (inr (rw named at gone), kept))
        | inr (x, g) ↦
            rw (e, remove_and_save)
              (rw g (inl (x, refl), find_other-restore r n other table' ∙ kept))
      ]

  Deletes-trans :
      (name n : Text) (table table' : ProcessTable)
      → find_by_name n table' ≡ find_by_name n table
      → (o : Option (Result StopOutcome UsecaseError × ProcessTable × W)) → Deletes name n table' o
      → Deletes name n table o
  Deletes-trans name n table table' kept none d = d
  Deletes-trans name n table table' kept (some (result, last, w)) d = (d.0, d.1 ∙ kept)

  delete_one-Deletes :
      (table : ProcessTable) (r : ProcessRecord) (n : Text) (w : W)
      → IsTable table
      → find (selects (by_name r.runtime.name)) table.records ≡ some r
      → text_eq r.runtime.name n ≡ false
      → Deletes r.runtime.name n table (delete_one ports table r.runtime.name w)
  unfolding delete_one find_record
  delete_one-Deletes table r n w t found other =
      let p = selects (by_name r.runtime.name) in
      let r' = (request_stop ports r w).1 in
      let w' = (request_stop ports r w).2 in
      let k = request_stop-Keeps ports r w in
      let table' = write_record p r' table in
      let kept = find_other-write_record r n other p r' table found k.1 in
      elim (Result-cases (request_stop ports r w).0) [
        | inl (o, g) ↦
            rw (found, delete_one)
              (rw g (
                Deletes-trans r.runtime.name n table table' kept _ (
                  remove_and_save-Deletes table' r' r.runtime.name n o w'
                    (write-IsTable p r r' table t found k)
                    (remove-write_record (by_name r.runtime.name) r r' table found
                      (rw k.1 (text_eq_refl r.runtime.name)))
                    k.1 other)))
        | inr (x, g) ↦ rw (found, delete_one) (rw g (inl (x, refl), kept))
      ]

  -- Deleting a service that a table with the invariant holds ends, on every branch, without an
  -- internal error: either with an error, or with a table that lacks the service's name; and in
  -- both cases what the table holds under any other name `n` is as it was.
  pub delete_app-Deletes :
      (table : ProcessTable) (selector : AppSelector) (r : ProcessRecord) (n : Text) (w : W)
      → IsTable table
      → find_record selector table ≡ some r
      → text_eq r.runtime.name n ≡ false
      → Deletes r.runtime.name n table (delete_app ports table selector w)
  unfolding delete_app find_record
  delete_app-Deletes table selector r n w t found other =
      elim (Bool-cases (is_empty (dependents_of table r.runtime.name))) [
        | inl e ↦
            rw (found, delete_app)
              (rw e (
                delete_one-Deletes table r n w t
                  (find_record-by_name selector r table t.distinct_names found) other))
        | inr e ↦ rw (found, delete_app) (rw e (inl (_, refl), refl))
      ]
