-- ===== src/Usecases/Lifecycle/Shutdown.antt =====
-- `stop_all_apps` of stop.rs: it returns, and no service is left running or waiting to be restarted.
use pm.Base.{
  ◌≡◌, refl, sym, subst, ◌⊎◌, inl, inr, true, false, ◌||◌, none, some, List, [], ◌∷◌, reverse, Memᴰ,
  mem-reverse, mem-reverse_of_mem, All, find, Text, text_eq_iff, Bool-cases, Option-cases, arith,
}
use pm.Entities.Runtime.{live_pid, mark_exited, mark_stopping, disarm_schedule, cancel_restart}
use pm.Entities.Status.{is_settled, is_shutting_down}
use pm.Usecases.Lifecycle.Records.{stop_one-Keeps}
use pm.Usecases.Lifecycle.Steps.{write-IsTable}
use pm.Usecases.Ports.{Ports}
use pm.Usecases.Record.{ProcessRecord}
use pm.Usecases.Stop.{StopOutcome, request_stop, stop_one, stop_each, stop_all_apps}
use pm.Usecases.Table.{
  ProcessTable, has_name, find_by_name, replace_first, write_record, save_table,
}
use pm.Usecases.Table.Invariant.{Distinct, names, IsTable, names-write_record}
use pm.Usecases.Table.Growth.{names-ne}
use pm.Usecases.Table.Order.{dependency_order-IsOrder}

-- A service that is down or on its way down, and that nothing will bring up again.
pub record IsQuiet (r : ProcessRecord) : Type 0 where
  pub down : (is_settled r.runtime.status || is_shutting_down r.runtime.status) ≡ true
  pub no_restart : r.runtime.pending_restart ≡ false
  pub no_schedule : r.runtime.schedule_armed ≡ false

-- A service that is quiet, or whose turn is still to come.
QuietOrDue : List Text → ProcessRecord → Type 0
QuietOrDue order r = Memᴰ r.runtime.name order ⊎ IsQuiet r

due_later :
    (name : Text) (order : List Text) (r : ProcessRecord)
    → ¬ (r.runtime.name ≡ name)
    → QuietOrDue (name ∷ order) r
    → QuietOrDue order r
unfolding QuietOrDue
due_later name order r other (inl (Memᴰ.head e)) = absurd (other e)
due_later name order r other (inl (Memᴰ.tail m)) = inl m
due_later name order r other (inr q) = inr q

All-due_later :
    (name : Text) (order : List Text) (xs : List ProcessRecord)
    → ¬ Memᴰ name (names xs)
    → All (QuietOrDue (name ∷ order)) xs
    → All (QuietOrDue order) xs
All-due_later name order [] absent a = tt
All-due_later name order (x ∷ xs) absent a = (
  due_later name order x (λ e. absent (Memᴰ.head (sym e))) a.0,
  All-due_later name order xs (λ m. absent (Memᴰ.tail m)) a.1,
)

All-after_write :
    (name : Text) (order : List Text) (r' : ProcessRecord) (xs : List ProcessRecord)
    → Distinct (names xs)
    → IsQuiet r'
    → All (QuietOrDue (name ∷ order)) xs
    → All (QuietOrDue order) (replace_first (has_name name) r' xs)
unfolding replace_first QuietOrDue
All-after_write name order r' [] d q a = tt
All-after_write name order r' (x ∷ xs) d q a = elim (Bool-cases (has_name name x)) [
  | inl e ↦
      rw (e, replace_first)
        (
          inr q,
          All-due_later name order xs (subst (λ n. ¬ Memᴰ n (names xs)) ((text_eq_iff _ _).0 e) d.0)
              a.1,
        )
  | inr e ↦
      rw (e, replace_first)
        (
          due_later name order x (λ same. ground (arith, text_eq_iff x.runtime.name name)) a.0,
          All-after_write name order r' xs d.1 q a.1,
        )
]

none_due : (xs : List ProcessRecord) → All (QuietOrDue []) xs → All IsQuiet xs
unfolding QuietOrDue
none_due [] a = tt
none_due (x ∷ xs) a = (quiet a.0, none_due xs a.1)
  where
    quiet : QuietOrDue [] x → IsQuiet x
    quiet (inl m) = elim m [ ]
    quiet (inr q) = q

All-due :
    (order : List Text) (xs : List ProcessRecord)
    → ((r : ProcessRecord) → Memᴰ r xs → Memᴰ r.runtime.name order)
    → All (QuietOrDue order) xs
unfolding QuietOrDue
All-due order [] f = tt
All-due order (x ∷ xs) f = (inl (f x (Memᴰ.head refl)), All-due order xs (λ r m. f r (Memᴰ.tail m)))

module _ {W : Type 0} (ports : Ports W) where
  stop_one-IsQuiet : (r : ProcessRecord) (w : W) → IsQuiet (stop_one ports r w).1
  unfolding stop_one request_stop live_pid mark_exited mark_stopping disarm_schedule cancel_restart
  stop_one-IsQuiet r w = ground arith

  stop_each-returns :
      (order : List Text) (table : ProcessTable) (w : W)
      → IsTable table
      → ((name : Text) → Memᴰ name order → Memᴰ name (names table.records))
      → All (QuietOrDue order) table.records
      → (outcomes : List StopOutcome) × (table' : ProcessTable) × (w' : W) × (stop_each ports order
            table w
          ≡ some (outcomes, table', w'))
        × All IsQuiet table'.records
  unfolding stop_each find_by_name write_record
  stop_each-returns [] table w t known a = ([], table, w, refl, none_due table.records a)
  stop_each-returns (name ∷ order) table w t known a =
      elim (Option-cases (find (has_name name) table.records)) [
        | inl absent ↦ absurd (names-ne name table.records absent (known name (Memᴰ.head refl)))
        | inr (r, found) ↦
            let r' = (stop_one ports r w).1 in
            let k = stop_one-Keeps ports r w in
            let table' = write_record (has_name name) r' table in
            let same = names-write_record (has_name name) r r' table found k.1 in
            let (os, last, w', e, quiet) =
              stop_each-returns order table' (stop_one ports r w).2
                (write-IsTable (has_name name) r r' table t found k)
                (λ n m. subst (λ ns. Memᴰ n ns) (sym same) (known n (Memᴰ.tail m)))
                (after name order r' table t.distinct_names (stop_one-IsQuiet r w) a) in
            (
              (elim (stop_one ports r w).0 [ none ↦ os | some o ↦ o ∷ os ]),
              last,
              w',
              rw (found, stop_each) (rw e refl),
              quiet,
            )
      ]
    where
      after :
          (name : Text) (order : List Text) (r' : ProcessRecord) (table : ProcessTable)
          → Distinct (names table.records)
          → IsQuiet r'
          → All (QuietOrDue (name ∷ order)) table.records
          → All (QuietOrDue order) (write_record (has_name name) r' table).records
      after name order r' table d q a = All-after_write name order r' table.records d q a

  -- Stopping every service of a table that holds the invariant returns, whatever the outside
  -- answers and even if the dependencies have a cycle, and leaves every service settled or
  -- stopping, with neither a restart request nor an armed schedule that would bring it up again.
  pub stop_all_apps-quiets :
      (table : ProcessTable) (w : W)
      → IsTable table
      → (outcomes : List StopOutcome) × (table' : ProcessTable) × (w' : W) × (stop_all_apps ports
            table w
          ≡ some (outcomes, table', w'))
        × All IsQuiet table'.records
  unfolding stop_all_apps
  stop_all_apps-quiets table w t =
      let (order, e, o) = dependency_order-IsOrder table t in
      let (os, table', w', g, quiet) =
        stop_each-returns (reverse order) table w t (λ n m. o.known n (mem-reverse order m))
          (All-due (reverse order) table.records
            (λ r m. mem-reverse_of_mem order (o.complete r m))) in
      (os, table', (save_table ports table' w').1, rw (e, stop_all_apps) (rw g refl), quiet)
