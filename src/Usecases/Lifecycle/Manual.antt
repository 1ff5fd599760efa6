-- ===== src/Usecases/Lifecycle/Manual.antt =====
-- stop.rs and restart.rs against supervise.rs: what a person asks for decides the exit that follows.
use pm.Base.{Option, none, some}
use pm.Entities.Runtime.{request_restart}
use pm.Usecases.Ports.{Ports}
use pm.Usecases.Record.{ProcessRecord}
use pm.Usecases.Stop.{request_stop}
use pm.Usecases.Supervise.{ExitAction}
use pm.Usecases.Table.{ProcessTable}

-- The action that an exit ends in, unless the table lacks the name.
abbrev pub action_of : {W : Type 0} → Option (ProcessTable × ExitAction × W) → Option ExitAction
action_of none = none
action_of (some (table, action, w)) = some action

module _ {W : Type 0} (ports : Ports W) where
  -- The record that `restart_running` leaves of a service that was asked to stop.
  abbrev asked_to_restart : ProcessRecord → W → ProcessRecord
  asked_to_restart r w =
      let r' = (request_stop ports r w).1 in record r' { runtime = request_restart r'.runtime }
