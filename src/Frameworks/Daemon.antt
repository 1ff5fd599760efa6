-- ===== src/Frameworks/Daemon.antt =====
-- The events of frameworks/src/daemon/events.rs, and the actor of daemon/actor.rs that answers them.
-- The board of tasks stands in Board; what the tasks do when they run is not modelled. A command is
-- answered by `handle`, whose reply the event carries back in the source. `none` is a failed
-- `expect` of the use cases, or the end of the fuel of one of their loops.
mod Examples
pub mod Board
pub mod Runs
use pm.Base.{
  ℕ, zero, suc, ◌+◌, Option, none, some, List, [], ◌∷◌, Bool, true, false, Text, max, ltb,
  saturating_add, max_u64, if◌then◌else◌, Result, ok, err,
}
use pm.Adapters.Config.{Pm3Config}
use pm.Frameworks.Daemon.Board.{DaemonEvent, TaskBoard, apply_all, forget_force_kill}
use pm.Frameworks.Daemon.Board.{new as new_board}
use pm.Usecases.Alert.{SupervisionEffect}
use pm.Usecases.Ports.{Ports, SpecResolver, UsecaseError}
use pm.Usecases.Supervision.{SupervisionRequest, SupervisionOutcome}
use pm.Usecases.Supervisor.{Supervisor, Turn}
use pm.Usecases.Supervisor.{new as new_supervisor}
use pm.Usecases.Supervisor.Events.{
  on_exit, on_restart, on_fire, on_memory_sample, on_liveness_sample, on_log_rotate, on_force_kill,
  force_kill_survivors, prepare_shutdown, drained,
}
use pm.Usecases.Supervisor.Readiness.{on_ready, on_ready_timeout}
use pm.Usecases.Supervisor.Requests.{handle}
use pm.Usecases.Supervisor.Takeover.{resurrect_saved}

pub record Daemon : Type 0 where
  pub supervisor : Supervisor
  pub board : TaskBoard
  pub poll_interval_ms : ℕ
  pub kill_timeout_ms : ℕ
  pub memory_poll_interval_ms : ℕ
  pub liveness_poll_interval_ms : ℕ
  pub liveness_failure_threshold : ℕ
  pub log_rotate_max_bytes : ℕ
  pub log_rotate_interval_ms : ℕ

unfoldable pub new : Pm3Config → (logs_dir : Text) → Daemon
new config logs_dir = record {
  supervisor =
      new_supervisor logs_dir config.kill_timeout_ms config.ready_timeout_ms
        (max config.ready_poll_interval_ms 1) config.notify.cooldown_ms;
  board = new_board;
  poll_interval_ms = max config.daemon_poll_interval_ms 1;
  kill_timeout_ms = config.kill_timeout_ms;
  memory_poll_interval_ms = max config.memory_poll_interval_ms 1;
  liveness_poll_interval_ms = max config.liveness_poll_interval_ms 1;
  liveness_failure_threshold = max config.liveness_failure_threshold 1;
  log_rotate_max_bytes = config.log_rotate_max_bytes;
  log_rotate_interval_ms = max config.log_rotate_interval_ms 1;
}

module _ {W : Type 0} where
  -- The turn that a daemon gives its supervisor.
  abbrev pub begin : Daemon → W → Turn W
  begin d w = record { supervisor = d.supervisor; effects = []; world = w }

  -- The supervisor's new state, and `run` of its effects on the board.
  unfoldable pub finish : Daemon → Turn W → Daemon × W
  finish d t =
      (record d { supervisor = t.supervisor; board = apply_all t.effects d.board }, t.world)

  abbrev pub finish_if : Daemon → Option (Turn W) → Option (Daemon × W)
  finish_if d none = none
  finish_if d (some t) = some (finish d t)

module _ {W : Type 0} (ports : Ports W) (sleep : ℕ → W → W) where
  -- The loop of `wait_until_drained`, on fuel; `none` is the end of the fuel.
  unfoldable pub drain_loop : ℕ → Daemon → (waited_ms : ℕ) → W → Option (Bool × W)
  drain_loop zero d waited_ms w = none
  drain_loop (suc fuel) d waited_ms w =
      let (tracked, w') = ports.tracked_pids w in
      let rest =
        drain_loop fuel d (saturating_add max_u64 waited_ms d.poll_interval_ms)
          (sleep d.poll_interval_ms w') in
      if ltb waited_ms d.kill_timeout_ms
      then if drained d.supervisor tracked then some (true, w') else rest
      else some (drained d.supervisor tracked, w')

  unfoldable pub wait_until_drained : Daemon → W → Option (Bool × W)
  unfolding drain_loop
  wait_until_drained d w = drain_loop (suc d.kill_timeout_ms) d 0 w

  unfoldable pub shutdown : Daemon → W → Option (Daemon × W)
  shutdown d w =
      let (d', w') = finish d (prepare_shutdown ports (begin d w)) in
      elim (wait_until_drained d' w') [
        | none ↦ none
        | some (is_drained, w'') ↦
            let (tracked, w''') = ports.tracked_pids w'' in
            some (
              if is_drained
              then (d', w'')
              else (d', force_kill_survivors ports d'.supervisor tracked w'''))
      ]

  unfoldable pub apply :
      SpecResolver W → (to_uppercase : Text → Text) → DaemonEvent → Daemon → W → Option (Daemon × W)
  apply resolver to_uppercase (DaemonEvent.command request) d w =
      elim (handle ports resolver to_uppercase request d.supervisor w) [
        | none ↦ none
        | some (outcome, t) ↦ some (finish d t)
      ]
  apply resolver to_uppercase (DaemonEvent.exited name generation outcome) d w =
      finish_if d (on_exit ports name generation outcome (begin d w))
  apply resolver to_uppercase (DaemonEvent.restart name) d w =
      finish_if d (on_restart ports name (begin d w))
  apply resolver to_uppercase (DaemonEvent.fire name fire_at_ms) d w =
      finish_if d (on_fire ports name fire_at_ms (begin d w))
  apply resolver to_uppercase (DaemonEvent.force_kill name generation pid token) d w = some (
    record d { board = forget_force_kill name d.board },
    on_force_kill ports d.supervisor name generation pid token w,
  )
  apply resolver to_uppercase DaemonEvent.sample_memory d w =
      finish_if d (on_memory_sample ports d.memory_poll_interval_ms (begin d w))
  apply resolver to_uppercase DaemonEvent.sample_liveness d w = finish_if d (
      on_liveness_sample ports d.liveness_poll_interval_ms d.liveness_failure_threshold (begin d w))
  apply resolver to_uppercase DaemonEvent.rotate_logs d w =
      some
        (finish d (on_log_rotate ports d.log_rotate_max_bytes d.log_rotate_interval_ms (begin d w)))
  apply resolver to_uppercase (DaemonEvent.ready name generation) d w =
      finish_if d (on_ready ports name generation (begin d w))
  apply resolver to_uppercase (DaemonEvent.ready_timeout name generation reason) d w =
      finish_if d (on_ready_timeout ports name generation (begin d w))
  apply resolver to_uppercase DaemonEvent.shutdown d w = shutdown d w

  unfoldable pub resurrect_saved_apps :
      Daemon → W → Option (Result (Unit {0}) UsecaseError × Daemon × W)
  unfolding finish
  resurrect_saved_apps d w = elim (resurrect_saved ports d.supervisor w) [
    | none ↦ none
    | some (err e, t) ↦ some (err e, record d { supervisor = t.supervisor }, t.world)
    | some (ok _, t) ↦ let (d', w') = finish d t in some (ok tt, d', w')
  ]
