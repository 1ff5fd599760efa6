-- ===== src/Usecases/Lifecycle/Steps.antt =====
-- Every operation of the use cases keeps the invariant of the table, on every branch.
use pm.Base.{
  ◌≡◌, Bool, Option, none, some, List, [], ◌∷◌, Text, find, find-some, All_at, reverse, ok, err,
  Option-cases, Bool-cases, Result-cases, inl, inr,
}
use pm.Entities.Runtime.{request_restart}
use pm.Entities.Status.{is_settled}
use pm.Usecases.Launch.{StartMode, fire, launch}
use pm.Usecases.Ports.{Ports, ExitOutcome}
use pm.Usecases.Record.{ProcessRecord}
use pm.Usecases.Restart.{restart_app, restart_settled, restart_running}
use pm.Usecases.Selector.{AppSelector}
use pm.Usecases.Stop.{
  request_stop, quiesce, stop_app, stop_one, stop_each, stop_all_apps, reset_app,
}
use pm.Usecases.Supervise.{classify_exit, handle_child_exit, settle_failed_probe}
use pm.Usecases.Table.{
  ProcessTable, selects, has_name, find_record, find_by_name, write_record, dependency_order,
}
use pm.Usecases.Table.Invariant.{IsTable, IsSound, write_record-IsTable}
use pm.Usecases.Lifecycle.Records.{
  Keeps, Keeps-trans, quiesce-Keeps, mark_errored-Keeps, reset-Keeps, request_restart-Keeps,
  classify_record-Keeps, request_stop-Keeps, stop_one-Keeps, launch_record-Keeps,
}

pub write-IsTable :
    (p : ProcessRecord → Bool) (r r' : ProcessRecord) (table : ProcessTable)
    → IsTable table
    → find p table.records ≡ some r
    → Keeps r r'
    → IsTable (write_record p r' table)
write-IsTable p r r' table t found k =
    write_record-IsTable p r r' table t found k.0 k.1
      (k.2 (All_at IsSound table.records t.sound (find-some p table.records found).0))

-- The tables that an operation which may stop on an internal error leaves.
abbrev pub Leaves {ℓ} :
    {A W : Type ℓ} → (ProcessTable → Type ℓ) → Option (A × ProcessTable × W) → Type ℓ
Leaves P none = Unit
Leaves P (some (a, table, w)) = P table

-- The same, of an operation that returns the table first.
abbrev pub LeavesFirst {ℓ} :
    {A W : Type ℓ} → (ProcessTable → Type ℓ) → Option (ProcessTable × A × W) → Type ℓ
LeavesFirst P none = Unit
LeavesFirst P (some (table, a, w)) = P table

module _ {W : Type 0} (ports : Ports W) where
  pub stop_app-IsTable :
      (table : ProcessTable) (selector : AppSelector) (w : W)
      → IsTable table
      → IsTable (stop_app ports table selector w).1
  unfolding stop_app find_record
  stop_app-IsTable table selector w t =
      elim (Option-cases (find (selects selector) table.records)) [
        | inl absent ↦ rw (absent, stop_app) t
        | inr (r, found) ↦
            let k : IsTable
                (write_record (selects selector) (request_stop ports (quiesce r) w).1 table) =
              write-IsTable (selects selector) r (request_stop ports (quiesce r) w).1 table t found
                (Keeps-trans r (quiesce r) (request_stop ports (quiesce r) w).1 (quiesce-Keeps r)
                  (request_stop-Keeps ports (quiesce r) w)) in
            rw (found, stop_app)
              (elim (Result-cases (request_stop ports (quiesce r) w).0) [
                | inl (o, e) ↦ rw e k
                | inr (x, e) ↦ rw e k
              ])
      ]

  pub reset_app-IsTable :
      (table : ProcessTable) (selector : AppSelector) (w : W)
      → IsTable table
      → IsTable (reset_app ports table selector w).1
  unfolding reset_app find_record
  reset_app-IsTable table selector w t =
      elim (Option-cases (find (selects selector) table.records)) [
        | inl absent ↦ rw (absent, reset_app) t
        | inr (r, found) ↦
            rw (found, reset_app)
              (write-IsTable (selects selector) r _ table t found (reset-Keeps r))
      ]

  pub restart_running-IsTable :
      (table : ProcessTable) (selector : AppSelector) (r : ProcessRecord) (w : W)
      → IsTable table
      → find (selects selector) table.records ≡ some r
      → IsTable (restart_running ports table selector r w).1
  unfolding restart_running
  restart_running-IsTable table selector r w t found =
      let k = request_stop-Keeps ports r w in
      elim (Result-cases (request_stop ports r w).0) [
        | inl (o, e) ↦
            let stopped_one = (request_stop ports r w).1 in
            let asked : ProcessRecord = record stopped_one {
              runtime = request_restart stopped_one.runtime;
            } in
            rw (e, restart_running)
              (write-IsTable (selects selector) r asked table t found
                (Keeps-trans r stopped_one asked k (request_restart-Keeps stopped_one)))
        | inr (x, e) ↦
            rw (e, restart_running)
              (write-IsTable (selects selector) r (request_stop ports r w).1 table t found k)
      ]

  pub launch-IsTable :
      (table : ProcessTable) (name logs_dir : Text) (mode : StartMode) (w : W)
      → IsTable table
      → Leaves IsTable (launch ports table name logs_dir mode w)
  unfolding launch find_by_name
  launch-IsTable table name logs_dir mode w t =
      elim (Option-cases (find (has_name name) table.records)) [
        | inl absent ↦ rw (absent, launch) tt
        | inr (r, found) ↦
            rw (found, launch)
              (write-IsTable (has_name name) r _ table t found
                (launch_record-Keeps ports r name logs_dir mode w))
      ]

  pub handle_child_exit-IsTable :
      (table : ProcessTable) (name : Text) (outcome : ExitOutcome) (w : W)
      → IsTable table
      → LeavesFirst IsTable (handle_child_exit ports table name outcome w)
  unfolding handle_child_exit classify_exit find_by_name
  handle_child_exit-IsTable table name outcome w t =
      elim (Option-cases (find (has_name name) table.records)) [
        | inl absent ↦ rw (absent, handle_child_exit, classify_exit) tt
        | inr (r, found) ↦
            rw (found, handle_child_exit, classify_exit)
              (write-IsTable (has_name name) r _ table t found
                (classify_record-Keeps r outcome (ports.now_ms w).0))
      ]

  pub settle_failed_probe-IsTable :
      (table : ProcessTable) (name : Text) (w : W)
      → IsTable table
      → Leaves IsTable (settle_failed_probe ports table name w)
  unfolding settle_failed_probe find_by_name
  settle_failed_probe-IsTable table name w t =
      elim (Option-cases (find (has_name name) table.records)) [
        | inl absent ↦ rw (absent, settle_failed_probe) tt
        | inr (r, found) ↦
            rw (found, settle_failed_probe)
              (write-IsTable (has_name name) r _ table t found (mark_errored-Keeps r))
      ]

  stop_each-IsTable :
      (order : List Text) (table : ProcessTable) (w : W)
      → IsTable table
      → Leaves IsTable (stop_each ports order table w)
  unfolding stop_each find_by_name
  stop_each-IsTable [] table w t = t
  stop_each-IsTable (name ∷ order) table w t =
      elim (Option-cases (find (has_name name) table.records)) [
        | inl absent ↦ rw (absent, stop_each) tt
        | inr (r, found) ↦
            let r' = (stop_one ports r w).1 in
            let w' = (stop_one ports r w).2 in
            let table' = write_record (has_name name) r' table in
            let rest : Leaves IsTable (stop_each ports order table' w') =
              stop_each-IsTable order table' w'
                (write-IsTable (has_name name) r r' table t found (stop_one-Keeps ports r w)) in
            rw (found, stop_each)
              (elim (Option-cases (stop_each ports order table' w')) [
                | inl e ↦ rw e tt
                | inr ((os, table'', w''), e) ↦ rw e (rw e at rest)
              ])
      ]

  pub stop_all_apps-IsTable :
      (table : ProcessTable) (w : W) → IsTable table → Leaves IsTable (stop_all_apps ports table w)
  unfolding stop_all_apps
  stop_all_apps-IsTable table w t = elim (Option-cases (dependency_order table)) [
    | inl e ↦ rw (e, stop_all_apps) tt
    | inr (order, e) ↦
        let all : Leaves IsTable (stop_each ports (reverse order) table w) =
          stop_each-IsTable (reverse order) table w t in
        rw (e, stop_all_apps)
          (elim (Option-cases (stop_each ports (reverse order) table w)) [
            | inl g ↦ rw g tt
            | inr ((os, table', w'), g) ↦ rw g (rw g at all)
          ])
  ]

  pub restart_app-IsTable :
      (table : ProcessTable) (selector : AppSelector) (logs_dir : Text) (w : W)
      → IsTable table
      → Leaves IsTable (restart_app ports table selector logs_dir w)
  unfolding restart_app restart_settled find_record
  restart_app-IsTable table selector logs_dir w t =
      elim (Option-cases (find (selects selector) table.records)) [
        | inl absent ↦ rw (absent, restart_app) t
        | inr (r, found) ↦ elim (Bool-cases (is_settled r.runtime.status)) [
          | inl e ↦
              let all : Leaves IsTable (launch ports table r.runtime.name logs_dir fire w) =
                launch-IsTable table r.runtime.name logs_dir fire w t in
              rw (found, restart_app)
                (rw e (elim (Option-cases (launch ports table r.runtime.name logs_dir fire w)) [
                  | inl g ↦ rw (g, restart_settled) tt
                  | inr ((ok o, table', w'), g) ↦ rw (g, restart_settled) (rw g at all)
                  | inr ((err x, table', w'), g) ↦ rw (g, restart_settled) (rw g at all)
                ]))
          | inr e ↦
              rw (found, restart_app) (rw e (restart_running-IsTable table selector r w t found))
        ]
      ]
