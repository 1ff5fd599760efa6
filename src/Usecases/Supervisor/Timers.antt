-- ===== src/Usecases/Supervisor/Timers.antt =====
-- The timers, restarts and forced kills of usecases/src/supervisor.rs.
use pm.Base.{ℕ, ◌-◌, Option, none, some, ◌++◌, map, Text, if◌then◌else◌}
use pm.Usecases.Alert.{
  arm_timer as arm_effect, disarm_timer, schedule_restart, schedule_force_kill as force_kill_effect,
}
use pm.Usecases.Alert.{cancel_restart as cancel_restart_effect}
use pm.Usecases.Fingerprint.{pid_was_recycled}
use pm.Usecases.Ports.{Ports, process_group}
use pm.Usecases.Query.{schedule_of}
use pm.Usecases.Supervisor.{Turn, push, with_timers}
use pm.Usecases.TimerState.{arm, current_generation, disarm_all, cancel_all_restarts, claim_restart}
use pm.Usecases.TimerState.{disarm as disarm_timers, queue_restart as queue_in_timers}

module _ {W : Type 0} where
  unfoldable pub disarm : Text → Turn W → Turn W
  disarm name t = push (disarm_timer name) (with_timers (disarm_timers name t.supervisor.timers) t)

  unfoldable pub cancel_restart : Text → Turn W → Turn W
  cancel_restart name t =
      push (cancel_restart_effect name) (with_timers (claim_restart name t.supervisor.timers).0 t)

  unfoldable pub queue_restart : Text → ℕ → Turn W → Turn W
  queue_restart name delay_ms t =
      push (schedule_restart name delay_ms)
        (with_timers (queue_in_timers name t.supervisor.timers) t)

  unfoldable pub disarm_everything : Turn W → Turn W
  disarm_everything t =
      let (disarmed, names) = disarm_all t.supervisor.timers in
      let (cancelled, restarts) = cancel_all_restarts disarmed in
      let t' = with_timers cancelled t in
      record t' {
        effects = t.effects ++ (map disarm_timer names ++ map cancel_restart_effect restarts);
      }

  unfoldable pub schedule_force_kill : Text → Option ℕ → Option Text → Turn W → Turn W
  schedule_force_kill name none token t = t
  schedule_force_kill name (some pid) token t =
      push
        (force_kill_effect name (current_generation name t.supervisor.timers) pid token
          t.supervisor.kill_timeout_ms)
        t

module _ {W : Type 0} (ports : Ports W) where
  -- An unschedulable expression is logged.
  unfoldable pub arm_timer : Text → Turn W → Turn W
  unfolding disarm
  arm_timer name t =
      let disarmed = disarm name t in
      elim (schedule_of t.supervisor.table name) [
        | none ↦ disarmed
        | some cron ↦
            let (now, w) = ports.now_ms t.world in
            let (next, w') = ports.next_fire_ms name cron now w in
            let asked : Turn W = record disarmed { world = w' } in
            elim next [
              | none ↦ asked
              | some fire_at_ms ↦
                  push (arm_effect name fire_at_ms (fire_at_ms - now))
                    (with_timers (arm name fire_at_ms asked.supervisor.timers) asked)
            ]
      ]

  -- A pid that the kernel handed to another process is spared; a refused kill is logged.
  unfoldable pub sweep_pid : ℕ → Option Text → W → W
  sweep_pid pid token w =
      let (observed, w') = ports.identity pid w in
      let (killed, w'') = ports.force_kill pid process_group w' in
      if pid_was_recycled observed token then w' else w''
