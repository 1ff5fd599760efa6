-- ===== src/Usecases/Stop.antt =====
-- usecases/src/stop.rs, reset.rs and signal.rs. An operation returns its result, the table that it
-- leaves, also on an error, and the world.
use pm.Base.{
  ℕ, Bool, false, Option, none, some, List, [], ◌∷◌, map, filter, reverse, Text, text_eq, Result,
  ok, err, if◌then◌else◌,
}
use pm.Entities.Runtime.{
  live_pid, identity_token, mark_exited, mark_stopping, disarm_schedule, cancel_restart,
  reset_restarts,
}
use pm.Entities.Signal.{parse_signal_name}
use pm.Entities.Status.{stopped, is_settled, is_shutting_down}
use pm.Usecases.Ports.{
  Ports, process_group, Liveness, alive, UsecaseError, signal_error, invalid_signal, not_found,
  not_running,
}
use pm.Usecases.Record.{ProcessRecord}
use pm.Usecases.Selector.{AppSelector, to_string}
use pm.Usecases.Table.{
  ProcessTable, selects, has_name, find_record, find_by_name, write_record, dependency_order,
  save_table,
}

pub record StopOutcome : Type 0 where
  pub name : Text
  pub force_kill_pid : Option ℕ

pub record SignalOutcome : Type 0 where
  pub name : Text
  pub signal : Text

abbrev pub quiesce : ProcessRecord → ProcessRecord
quiesce r = record r { runtime = cancel_restart (disarm_schedule r.runtime) }

module _ {W : Type 0} (ports : Ports W) where
  unfoldable pub request_stop :
      ProcessRecord → W → Result StopOutcome UsecaseError × ProcessRecord × W
  request_stop r w = elim (live_pid r.runtime) [
    | none ↦ (
      ok (record { name = r.runtime.name; force_kill_pid = none }),
      record r { runtime = mark_exited stopped r.runtime },
      w,
    )
    | some pid ↦
        let (sent, w') = ports.terminate pid process_group w in
        elim sent [
          | err e ↦ (err (signal_error e), r, w')
          | ok _ ↦ (
            ok (record { name = r.runtime.name; force_kill_pid = some pid }),
            record r { runtime = mark_stopping r.runtime },
            w',
          )
        ]
  ]

  unfoldable pub stop_app :
      ProcessTable → AppSelector → W → Result StopOutcome UsecaseError × ProcessTable × W
  stop_app table selector w = elim (find_record selector table) [
    | none ↦ (err (not_found (to_string selector)), table, w)
    | some r ↦
        let (attempt, r', w') = request_stop (quiesce r) w in
        let table' = write_record (selects selector) r' table in
        elim attempt [
          | err e ↦ (err e, table', w')
          | ok outcome ↦
              let (saved, w'') = save_table ports table' w' in
              ((elim saved [ ok _ ↦ ok outcome | err e ↦ err e ]), table', w'')
        ]
  ]

  -- One round of the loop of `stop_all_apps`: the record of one name, and the outcome if the
  -- service was asked to stop.
  unfoldable pub stop_one : ProcessRecord → W → Option StopOutcome × ProcessRecord × W
  stop_one r w =
      let q = quiesce r in
      if is_settled q.runtime.status
      then (none, q, w)
      else let (attempt, r', w') = request_stop q w in
        elim attempt [
          | ok outcome ↦ (some outcome, r', w')
          | err e ↦ (none, record r' { runtime = mark_stopping r'.runtime }, w')
        ]

  unfoldable pub stop_each :
      List Text → ProcessTable → W → Option (List StopOutcome × ProcessTable × W)
  stop_each [] table w = some ([], table, w)
  stop_each (name ∷ order) table w = elim (find_by_name name table) [
    | none ↦ none
    | some r ↦
        let (outcome, r', w') = stop_one r w in
        let table' = write_record (has_name name) r' table in
        elim (stop_each order table' w') [
          | none ↦ none
          | some (rest, table'', w'') ↦
              some ((elim outcome [ none ↦ rest | some o ↦ o ∷ rest ]), table'', w'')
        ]
  ]

  -- `none` is an internal error: an ordered name that the table lacks.
  unfoldable pub stop_all_apps : ProcessTable → W → Option (List StopOutcome × ProcessTable × W)
  stop_all_apps table w = elim (dependency_order table) [
    | none ↦ none
    | some order ↦ elim (stop_each (reverse order) table w) [
      | none ↦ none
      | some (outcomes, table', w') ↦
          let (saved, w'') = save_table ports table' w' in some (outcomes, table', w'')
    ]
  ]

  unfoldable pub persist_for_handover : ProcessTable → W → Result (List Text) UsecaseError × W
  persist_for_handover table w =
      let draining =
        map (λ r. r.runtime.name) (filter (λ r. is_shutting_down r.runtime.status) table.records) in
      let (saved, w') = save_table ports table w in
      ((elim saved [ ok _ ↦ ok draining | err e ↦ err e ]), w')

  unfoldable pub reset_app :
      ProcessTable → AppSelector → W → Result Text UsecaseError × ProcessTable × W
  reset_app table selector w = elim (find_record selector table) [
    | none ↦ (err (not_found (to_string selector)), table, w)
    | some r ↦
        let r' : ProcessRecord = record r { runtime = reset_restarts r.runtime } in
        let table' = write_record (selects selector) r' table in
        let (saved, w') = save_table ports table' w in
        ((elim saved [ ok _ ↦ ok r.runtime.name | err e ↦ err e ]), table', w')
  ]

  unfoldable pub owns_pid : Option Text → Liveness → Bool
  owns_pid (some token) (alive current) = text_eq token current
  owns_pid _ _ = false

  -- The table is not changed.
  unfoldable pub signal_app :
      (to_uppercase : Text → Text)
      → ProcessTable
      → AppSelector
      → Text
      → W
      → Result SignalOutcome UsecaseError × W
  signal_app to_uppercase table selector raw w = elim (parse_signal_name to_uppercase raw) [
    | err e ↦ (err (invalid_signal e), w)
    | ok signal ↦ elim (find_record selector table) [
      | none ↦ (err (not_found (to_string selector)), w)
      | some r ↦ elim (live_pid r.runtime) [
        | none ↦ (err (not_running r.runtime.name), w)
        | some live ↦
            let (observed, w') = ports.identity live w in
            let (sent, w'') = ports.deliver signal live process_group w' in
            if owns_pid (identity_token r.runtime) observed
            then (
              (elim sent [
                | ok _ ↦ ok (record { name = r.runtime.name; signal = signal })
                | err e ↦ err (signal_error e)
              ]),
              w'',
            )
            else (err (not_running r.runtime.name), w')
      ]
    ]
  ]
