-- ===== src/Usecases/Supervise.antt =====
-- usecases/src/supervise.rs. `none` is the source's internal error on a name that the table lacks.
pub mod Coherent
use pm.Base.{
  ℕ, Bool, true, false, not, ◌||◌, Option, none, some, Text, Result, ok, err, if◌then◌else◌,
}
use pm.Entities.Restart.{restart, give_up, decide_restart}
use pm.Entities.Runtime.{
  elapsed_since_launch_ms, mark_exited, count_restart, take_restart_request, takes_the_breaker,
}
use pm.Entities.Spec.{restart_policy, stops_on}
use pm.Entities.Status.{ProcessStatus, stopped, errored, is_shutting_down}
use pm.Usecases.Ports.{
  Ports, ExitOutcome, code, signalled, unobserved, failed, is_success_code, UsecaseError,
}
use pm.Usecases.Record.{ProcessRecord}
use pm.Usecases.Table.{ProcessTable, has_name, find_by_name, write_record, save_table}

pub data ExitAction : Type 0 where
  restart_after : (delay_ms : ℕ) → ExitAction
  settled : (status : ProcessStatus) (alarming : Bool) → ExitAction

unfoldable pub stops_on_this_code : ProcessRecord → ExitOutcome → Bool
stops_on_this_code r (code c) = stops_on r.spec c
stops_on_this_code r _ = false

-- The record with its restart request taken, and the action if the breaker is not asked.
unfoldable pub settle_without_the_breaker :
    ProcessRecord → ExitOutcome → ProcessRecord × Option ExitAction
unfolding stops_on_this_code
settle_without_the_breaker r outcome =
    let was_stopping = is_shutting_down r.runtime.status in
    let supervised = takes_the_breaker r.runtime in
    let (runtime, requested) = take_restart_request r.runtime in
    let r' : ProcessRecord = record r { runtime = runtime } in
    (
      r',
      if requested
          then if supervised then none else some (restart_after 0)
          else if was_stopping || stops_on_this_code r' outcome
          then some (settled stopped false)
          else none,
    )

abbrev settled_status : ExitOutcome → ProcessStatus
settled_status outcome = if failed outcome then errored else stopped

-- The part of `classify_exit` from the call of `decide_restart` on.
unfoldable pub ask_the_breaker : ProcessRecord → ExitOutcome → ℕ → ProcessRecord × ExitAction
ask_the_breaker r outcome now_ms =
    elim (decide_restart (restart_policy r.spec) (elapsed_since_launch_ms r.runtime now_ms)
      r.runtime.unstable_restarts) [
        | restart delay_ms unstable ↦ (
          record r { runtime = count_restart unstable (mark_exited stopped r.runtime) },
          restart_after delay_ms,
        )
        | give_up unstable ↦
            let runtime = mark_exited (settled_status outcome) r.runtime in
            (
              record r { runtime = record runtime { unstable_restarts = unstable } },
              settled (settled_status outcome) (not (is_success_code outcome)),
            )
      ]

-- `classify_exit` on the record of the name.
unfoldable pub classify_record : ProcessRecord → ExitOutcome → ℕ → ProcessRecord × ExitAction
unfolding settle_without_the_breaker ask_the_breaker
classify_record r outcome now_ms =
    let (r', early) = settle_without_the_breaker r outcome in
    elim early [
      | some action ↦ (record r' { runtime = mark_exited stopped r'.runtime }, action)
      | none ↦ ask_the_breaker r' outcome now_ms
    ]

unfoldable pub classify_exit :
    ProcessTable → Text → ExitOutcome → ℕ → Option (ProcessTable × ExitAction)
classify_exit table name outcome now_ms = elim (find_by_name name table) [
  | none ↦ none
  | some r ↦
      let (r', action) = classify_record r outcome now_ms in
      some (write_record (has_name name) r' table, action)
]

module _ {W : Type 0} (ports : Ports W) where
  -- A failed save is logged, and no more.
  unfoldable pub handle_child_exit :
      ProcessTable → Text → ExitOutcome → W → Option (ProcessTable × ExitAction × W)
  handle_child_exit table name outcome w =
      let (now, w') = ports.now_ms w in
      elim (classify_exit table name outcome now) [
        | none ↦ none
        | some (table', action) ↦
            let (saved, w'') = save_table ports table' w' in some (table', action, w'')
      ]

  unfoldable pub settle_failed_probe :
      ProcessTable → Text → W → Option (Result (Unit {0}) UsecaseError × ProcessTable × W)
  settle_failed_probe table name w = elim (find_by_name name table) [
    | none ↦ none
    | some r ↦
        let r' : ProcessRecord = record r { runtime = mark_exited errored r.runtime } in
        let table' = write_record (has_name name) r' table in
        let (saved, w') = save_table ports table' w in some (saved, table', w')
  ]
