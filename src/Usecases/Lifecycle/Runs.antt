-- ===== src/Usecases/Lifecycle/Runs.antt =====
-- The operations of stop.rs, reset.rs, restart.rs, delete.rs and supervise.rs in any order, as the
-- daemon calls them one after the other on its one table.
use pm.Base.{Option, none, some, List, [], ◌∷◌, Text, Option-cases, inl, inr}
use pm.Usecases.Delete.{delete_app}
use pm.Usecases.Launch.{fire, launch}
use pm.Usecases.Ports.{Ports, ExitOutcome}
use pm.Usecases.Restart.{restart_app}
use pm.Usecases.Selector.{AppSelector}
use pm.Usecases.Stop.{stop_app, stop_all_apps, reset_app}
use pm.Usecases.Supervise.{handle_child_exit, settle_failed_probe}
use pm.Usecases.Table.{ProcessTable}
use pm.Usecases.Table.Invariant.{IsTable}
use pm.Usecases.Lifecycle.Removal.{delete_app-IsTable}
use pm.Usecases.Lifecycle.Steps.{
  Leaves, LeavesFirst, stop_app-IsTable, stop_all_apps-IsTable, reset_app-IsTable,
  restart_app-IsTable, launch-IsTable, handle_child_exit-IsTable, settle_failed_probe-IsTable,
}

pub data Event : Type 0 where
  stop_requested reset_requested delete_requested : AppSelector → Event
  restart_requested : AppSelector → (logs_dir : Text) → Event
  stop_all_requested : Event
  launch_due : (name logs_dir : Text) → Event
  child_exited : (name : Text) → ExitOutcome → Event
  probe_failed : (name : Text) → Event

abbrev table_of : {A W : Type 0} → Option (A × ProcessTable × W) → Option (ProcessTable × W)
table_of none = none
table_of (some (a, table, w)) = some (table, w)

abbrev first_table_of : {A W : Type 0} → Option (ProcessTable × A × W) → Option (ProcessTable × W)
first_table_of none = none
first_table_of (some (table, a, w)) = some (table, w)

abbrev pub IsTableIfAny : {W : Type 0} → Option (ProcessTable × W) → Type 0
IsTableIfAny none = Unit
IsTableIfAny (some (table, w)) = IsTable table

table_of-IsTable :
    {A W : Type 0} (o : Option (A × ProcessTable × W))
    → Leaves IsTable o
    → IsTableIfAny (table_of o)
table_of-IsTable none l = tt
table_of-IsTable (some (a, table, w)) l = l

first_table_of-IsTable :
    {A W : Type 0} (o : Option (ProcessTable × A × W))
    → LeavesFirst IsTable o
    → IsTableIfAny (first_table_of o)
first_table_of-IsTable none l = tt
first_table_of-IsTable (some (table, a, w)) l = l

module _ {W : Type 0} (ports : Ports W) where
  pub perform : Event → ProcessTable → W → Option (ProcessTable × W)
  perform (stop_requested selector) table w =
      let (result, table', w') = stop_app ports table selector w in some (table', w')
  perform (reset_requested selector) table w =
      let (result, table', w') = reset_app ports table selector w in some (table', w')
  perform (delete_requested selector) table w = table_of (delete_app ports table selector w)
  perform (restart_requested selector logs_dir) table w =
      table_of (restart_app ports table selector logs_dir w)
  perform stop_all_requested table w = table_of (stop_all_apps ports table w)
  perform (launch_due name logs_dir) table w = table_of (launch ports table name logs_dir fire w)
  perform (child_exited name outcome) table w =
      first_table_of (handle_child_exit ports table name outcome w)
  perform (probe_failed name) table w = table_of (settle_failed_probe ports table name w)

  -- A series of events; `none` is an internal error of the source.
  pub run : List Event → ProcessTable → W → Option (ProcessTable × W)
  unfolding perform
  run [] table w = some (table, w)
  run (event ∷ events) table w = elim (perform event table w) [
    | none ↦ none
    | some (table', w') ↦ run events table' w'
  ]

  perform-IsTable :
      (event : Event) (table : ProcessTable) (w : W)
      → IsTable table
      → IsTableIfAny (perform event table w)
  unfolding perform
  perform-IsTable (stop_requested s) table w t = stop_app-IsTable ports table s w t
  perform-IsTable (reset_requested s) table w t = reset_app-IsTable ports table s w t
  perform-IsTable (delete_requested s) table w t =
      table_of-IsTable (delete_app ports table s w) (delete_app-IsTable ports table s w t)
  perform-IsTable (restart_requested s dir) table w t =
      table_of-IsTable (restart_app ports table s dir w) (restart_app-IsTable ports table s dir w t)
  perform-IsTable stop_all_requested table w t =
      table_of-IsTable (stop_all_apps ports table w) (stop_all_apps-IsTable ports table w t)
  perform-IsTable (launch_due name dir) table w t =
      table_of-IsTable (launch ports table name dir fire w)
        (launch-IsTable ports table name dir fire w t)
  perform-IsTable (child_exited name outcome) table w t =
      first_table_of-IsTable (handle_child_exit ports table name outcome w)
        (handle_child_exit-IsTable ports table name outcome w t)
  perform-IsTable (probe_failed name) table w t =
      table_of-IsTable (settle_failed_probe ports table name w)
        (settle_failed_probe-IsTable ports table name w t)

  -- From a table that holds the invariant, any series of stops, resets, deletions, restarts,
  -- launches that are due, exits and failed probes, whatever the outside answers, leaves a table
  -- that holds it, unless an event stops the program on an internal error: a record has a process
  -- id exactly while its service is not settled, and neither start nor identity otherwise, its spec
  -- carries its name, and no two records share a name or an id.
  pub run-IsTable :
      (events : List Event) (table : ProcessTable) (w : W)
      → IsTable table
      → IsTableIfAny (run events table w)
  unfolding run
  run-IsTable [] table w t = t
  run-IsTable (event ∷ events) table w t = elim (Option-cases (perform event table w)) [
    | inl e ↦ rw (e, run) tt
    | inr ((table', w'), e) ↦
        let next : IsTableIfAny (perform event table w) = perform-IsTable event table w t in
        rw (e, run) (run-IsTable events table' w' (rw e at next))
  ]
