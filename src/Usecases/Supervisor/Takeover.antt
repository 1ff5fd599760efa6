-- ===== src/Usecases/Supervisor/Takeover.antt =====
-- `resurrect_saved` of usecases/src/supervisor.rs, which takes over the services of the daemon before.
use pm.Base.{Option, none, some, List, [], ◌∷◌, Text, Result, ok, err, if◌then◌else◌}
use pm.Usecases.Ports.{Ports, UsecaseError, blocks_takeover}
use pm.Usecases.Query.{armed_schedule_names}
use pm.Usecases.Resurrect.{resurrect}
use pm.Usecases.Supervisor.{Supervisor, Turn, with_table}
use pm.Usecases.Supervisor.Launching.{watch_all}
use pm.Usecases.Supervisor.Timers.{arm_timer}

module _ {W : Type 0} (ports : Ports W) where
  unfoldable pub arm_each : List Text → Turn W → Turn W
  arm_each [] t = t
  arm_each (name ∷ names) t = arm_each names (arm_timer ports name t)

  -- The timers of the schedules that are armed.
  unfoldable pub arm_schedules : Turn W → Turn W
  unfolding arm_each
  arm_schedules t = arm_each (armed_schedule_names t.supervisor.table) t

  -- `none` is a failed `expect`. An error that does not block the takeover is logged.
  unfoldable pub resurrect_saved : Supervisor → W → Option (Result (Unit {0}) UsecaseError × Turn W)
  unfolding arm_schedules
  resurrect_saved s w = elim (resurrect ports s.table s.logs_dir s.kill_timeout_ms w) [
    | none ↦ none
    | some (ok outcomes, table, w') ↦
        elim (watch_all outcomes
          (with_table table (record { supervisor = s; effects = []; world = w' }))) [
            | none ↦ none
            | some t ↦ some (ok tt, arm_schedules t)
          ]
    | some (err e, table, w') ↦
        let t : Turn W = with_table table (record { supervisor = s; effects = []; world = w' }) in
        some (if blocks_takeover e then (err e, t) else (ok tt, arm_schedules t))
  ]
