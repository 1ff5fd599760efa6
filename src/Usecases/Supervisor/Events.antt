-- ===== src/Usecases/Supervisor/Events.antt =====
-- What the daemon reports to the supervisor, in usecases/src/supervisor.rs and
-- supervisor_liveness.rs. `none` is a failed `expect` of the source, or the end of the fuel of a loop.
use pm.Base.{
  ℕ, Bool, true, false, not, ◌&&◌, any, Option, none, some, List, [], ◌∷◌, map, is_empty, Text,
  contains_text, ◌==◌, if◌then◌else◌,
}
use pm.Usecases.Alert.{
  cancel_force_kill, schedule_memory_sample, schedule_liveness_sample, schedule_log_rotate,
  memory_killed, liveness_killed, settle,
}
use pm.Usecases.Ports.{Ports, ExitOutcome}
use pm.Usecases.Query.{
  MemoryBreach, memory_watch_list, breached_memory, hand_to_the_breaker, LivenessWatch,
  liveness_watch_list, record_liveness, settle_stability, owner_of_pid,
}
use pm.Usecases.Stop.{persist_for_handover}
use pm.Usecases.Supervise.{
  ExitAction, restart_after, settled, handle_child_exit, settle_failed_probe,
}
use pm.Usecases.Supervisor.{
  Supervisor, Turn, push, extend, with_timers, with_table, with_alerts, fire_alert, save_logged,
  survivor_pids,
}
use pm.Usecases.Supervisor.Launching.{restart_now}
use pm.Usecases.Supervisor.Readiness.{fail_waiters, remove_name}
use pm.Usecases.Supervisor.Timers.{queue_restart, sweep_pid, disarm_everything}
use pm.Usecases.Table.{has_name, find_by_name, write_record}
use pm.Usecases.TimerState.{is_current, claim_restart, fire_is_due}

module _ {W : Type 0} (ports : Ports W) where
  -- The action of an exit. The log lines are left out.
  unfoldable pub settle_exit : Text → ExitOutcome → ExitAction → Turn W → Option (Turn W)
  settle_exit name outcome (restart_after delay_ms) t = some (queue_restart name delay_ms t)
  settle_exit name outcome (settled status alarming) t = elim (fail_waiters name t) [
    | none ↦ none
    | some (t', failed) ↦
        let (now, w) = ports.now_ms t'.world in
        let (effect, alerts) = settle name outcome alarming now t'.supervisor.alerts in
        some (extend effect (with_alerts alerts (record t' { world = w })))
  ]

  -- An exit of a watched process whose record is in the table.
  unfoldable pub exit_known : Text → ExitOutcome → Turn W → Option (Turn W)
  unfolding settle_exit
  exit_known name outcome t =
      let s = t.supervisor in
      let forgotten : Turn W = record t {
        supervisor = record s { ready_failed = remove_name name s.ready_failed };
      } in
      let failed_probe : Option (Turn W) = elim (settle_failed_probe ports s.table name t.world) [
        | none ↦ none
        | some (saved, table, w) ↦ some (with_table table (record forgotten { world = w }))
      ] in
      let child_exit : Option (Turn W) =
        elim (handle_child_exit ports s.table name outcome t.world) [
          | none ↦ none
          | some (table, action, w) ↦
              settle_exit name outcome action (with_table table (record t { world = w }))
        ] in
      if contains_text s.ready_failed name then failed_probe else child_exit

  unfoldable pub on_exit : Text → ℕ → ExitOutcome → Turn W → Option (Turn W)
  unfolding exit_known
  on_exit name generation outcome t =
      let cancelled = push (cancel_force_kill name) t in
      let answer : Option (Turn W) = elim (find_by_name name t.supervisor.table) [
        | none ↦ some cancelled
        | some r ↦ exit_known name outcome cancelled
      ] in
      if is_current name generation t.supervisor.timers then answer else some t

  unfoldable pub on_restart : Text → Turn W → Option (Turn W)
  on_restart name t =
      let (timers, claimed) = claim_restart name t.supervisor.timers in
      let restarted = restart_now ports name (with_timers timers t) in
      if claimed then restarted else some (with_timers timers t)

  unfoldable pub on_fire : Text → ℕ → Turn W → Option (Turn W)
  on_fire name fire_at_ms t =
      let restarted = restart_now ports name t in
      if fire_is_due name fire_at_ms t.supervisor.timers then restarted else some t

  -- The end of a kill that the supervisor itself asked for.
  unfoldable pub blame_the_service : Text → Turn W → Option (Turn W)
  blame_the_service name t = elim (restart_now ports name t) [
    | none ↦ none
    | some t' ↦ elim (find_by_name name t'.supervisor.table) [
      | none ↦ none
      | some r ↦
          some (
            with_table (write_record (has_name name) (hand_to_the_breaker r) t'.supervisor.table)
              t')
    ]
  ]

  unfoldable pub restart_breached : List MemoryBreach → Turn W → Option (Turn W)
  unfolding blame_the_service
  restart_breached [] t = some t
  restart_breached (breach ∷ rest) t =
      elim (blame_the_service breach.name (fire_alert ports breach.name memory_killed t)) [
        | none ↦ none
        | some t' ↦ restart_breached rest t'
      ]

  unfoldable pub on_memory_sample : ℕ → Turn W → Option (Turn W)
  unfolding restart_breached
  on_memory_sample interval_ms t =
      let next = push (schedule_memory_sample interval_ms) t in
      let watched = memory_watch_list t.supervisor.table in
      let (sampled, w) = ports.resident_memory (map (λ m. m.pid) watched) t.world in
      let restarted =
        restart_breached (breached_memory watched sampled) (record next { world = w }) in
      if is_empty watched then some next else restarted

  unfoldable pub probe_one : ℕ → LivenessWatch → Turn W → Option (Turn W)
  unfolding blame_the_service
  probe_one threshold watch t =
      let (verdict, w) = ports.check_ready watch.probe t.world in
      elim (find_by_name watch.name t.supervisor.table) [
        | none ↦ none
        | some r ↦
            let (r', tripped) = record_liveness r verdict threshold in
            let noted =
              with_table (write_record (has_name watch.name) r' t.supervisor.table)
                (record t { world = w }) in
            let blamed =
              blame_the_service watch.name (fire_alert ports watch.name liveness_killed noted) in
            if tripped then blamed else some noted
      ]

  unfoldable pub probe_each : ℕ → List LivenessWatch → Turn W → Option (Turn W)
  unfolding probe_one
  probe_each threshold [] t = some t
  probe_each threshold (watch ∷ rest) t = elim (probe_one threshold watch t) [
    | none ↦ none
    | some t' ↦ probe_each threshold rest t'
  ]

  unfoldable pub settle_the_stable : Turn W → Turn W
  settle_the_stable t =
      let (now, w) = ports.now_ms t.world in
      let (table, names) = settle_stability t.supervisor.table now in
      let settled_turn = with_table table (record t { world = w }) in
      if is_empty names then settled_turn else save_logged ports settled_turn

  unfoldable pub on_liveness_sample : (interval_ms threshold : ℕ) → Turn W → Option (Turn W)
  unfolding probe_each settle_the_stable
  on_liveness_sample interval_ms threshold t =
      elim (probe_each threshold (liveness_watch_list t.supervisor.table)
        (push (schedule_liveness_sample interval_ms) t)) [
          | none ↦ none
          | some t' ↦ some (settle_the_stable t')
        ]

  unfoldable pub on_log_rotate : (max_bytes interval_ms : ℕ) → Turn W → Turn W
  on_log_rotate max_bytes interval_ms t =
      let next = push (schedule_log_rotate interval_ms) t in
      let (rotated, w) = ports.rotate_logs t.supervisor.logs_dir max_bytes t.world in
      if max_bytes == 0 then next else record next { world = w }

  abbrev no_token : Option Text → Bool
  no_token none = true
  no_token (some token) = false

  -- The supervisor is not changed.
  unfoldable pub on_force_kill : Supervisor → Text → ℕ → ℕ → Option Text → W → W
  on_force_kill s name generation pid token w =
      let (tracked, w') = ports.tracked_pids w in
      let swept = if any (λ p. p == pid) tracked then sweep_pid ports pid token w' else w' in
      if no_token token && not (is_current name generation s.timers) then w else swept

  unfoldable pub sweep_survivors : Supervisor → List ℕ → W → W
  sweep_survivors s [] w = w
  sweep_survivors s (pid ∷ pids) w =
      sweep_survivors s pids (sweep_pid ports pid (owner_of_pid s.table pid).1 w)

  unfoldable pub force_kill_survivors : Supervisor → List ℕ → W → W
  unfolding sweep_survivors
  force_kill_survivors s tracked w = sweep_survivors s (survivor_pids s tracked) w

  unfoldable pub prepare_shutdown : Turn W → Turn W
  prepare_shutdown t =
      let disarmed = disarm_everything t in
      let (saved, w) = persist_for_handover ports disarmed.supervisor.table disarmed.world in
      record disarmed { world = w }

unfoldable pub drained : Supervisor → List ℕ → Bool
drained s tracked = is_empty (survivor_pids s tracked)
