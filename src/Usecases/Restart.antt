-- ===== src/Usecases/Restart.antt =====
-- usecases/src/restart.rs. `none` is an internal error of the source.
use pm.Base.{Option, none, some, Text, Result, ok, err, if◌then◌else◌}
use pm.Entities.Runtime.{request_restart}
use pm.Entities.Status.{is_settled}
use pm.Usecases.Launch.{StartOutcome, fire, launch}
use pm.Usecases.Ports.{Ports, UsecaseError, not_found}
use pm.Usecases.Record.{ProcessRecord}
use pm.Usecases.Selector.{AppSelector, to_string}
use pm.Usecases.Stop.{StopOutcome, request_stop}
use pm.Usecases.Table.{ProcessTable, selects, find_record, write_record, save_table}

pub data RestartOutcome : Type 0 where
  started : StartOutcome → RestartOutcome
  awaiting_exit : StopOutcome → RestartOutcome

module _ {W : Type 0} (ports : Ports W) where
  -- A settled service is launched; a failed save is logged, and no more.
  unfoldable pub restart_settled :
      ProcessTable
      → Text
      → Text
      → W
      → Option (Result RestartOutcome UsecaseError × ProcessTable × W)
  restart_settled table name logs_dir w = elim (launch ports table name logs_dir fire w) [
    | none ↦ none
    | some (err e, table', w') ↦ some (err e, table', w')
    | some (ok outcome, table', w') ↦
        let (saved, w'') = save_table ports table' w' in some (ok (started outcome), table', w'')
  ]

  -- Any other is asked to stop, and is launched again when it has exited.
  unfoldable pub restart_running :
      ProcessTable
      → AppSelector
      → ProcessRecord
      → W
      → Result RestartOutcome UsecaseError × ProcessTable × W
  restart_running table selector r w =
      let (attempt, r', w') = request_stop ports r w in
      let asked : ProcessRecord = record r' { runtime = request_restart r'.runtime } in
      let table' = write_record (selects selector) asked table in
      let (saved, w'') = save_table ports table' w' in
      elim attempt [
        | err e ↦ (err e, write_record (selects selector) r' table, w')
        | ok outcome ↦ (ok (awaiting_exit outcome), table', w'')
      ]

  unfoldable pub restart_app :
      ProcessTable
      → AppSelector
      → Text
      → W
      → Option (Result RestartOutcome UsecaseError × ProcessTable × W)
  restart_app table selector logs_dir w = elim (find_record selector table) [
    | none ↦ some (err (not_found (to_string selector)), table, w)
    | some r ↦
        if is_settled r.runtime.status
        then restart_settled table r.runtime.name logs_dir w
        else some (restart_running table selector r w)
  ]
