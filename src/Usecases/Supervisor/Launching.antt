-- ===== src/Usecases/Supervisor/Launching.antt =====
-- The launches and restarts of usecases/src/supervisor.rs and supervisor_ready.rs. `none` is a
-- failed `expect` of the source.
use pm.Base.{
  ℕ, zero, suc, Bool, true, false, Option, none, some, List, [], ◌∷◌, Text, ok, err, if◌then◌else◌,
}
use pm.Entities.Ready.{ReadyProbe}
use pm.Entities.Status.{launching, online, status_eq}
use pm.Usecases.Alert.{await_ready, watch_exit, launch_failed}
use pm.Usecases.Launch.{StartKind, scheduled, StartOutcome, needs_watching, register_one}
use pm.Usecases.Ports.{Ports}
use pm.Usecases.Record.{ProcessRecord}
use pm.Usecases.Restart.{RestartOutcome, started, awaiting_exit, restart_app}
use pm.Usecases.Selector.{name as by_name}
use pm.Usecases.Supervisor.{
  Supervisor, Turn, identity_token, push, with_timers, with_table, and_then, fire_alert,
  save_logged,
}
use pm.Usecases.Supervisor.Timers.{schedule_force_kill, cancel_restart, arm_timer}
use pm.Usecases.Supervisor.Waiters.{
  waiting_count, waiters_of, still_waiting, mark_errored_if_settled, fail_downstream,
}
use pm.Usecases.Table.{find_by_name}
use pm.Usecases.TimerState.{bump, delete}

abbrev pub or_default : Option ℕ → ℕ → ℕ
or_default none d = d
or_default (some n) d = n

module _ {W : Type 0} where
  -- The effect that awaits a probing service's readiness.
  unfoldable pub await_probe :
      Supervisor → Text → ProcessRecord → ℕ → Option ReadyProbe → Turn W → Turn W
  await_probe s name r generation none t = t
  await_probe s name r generation (some probe) t =
      if status_eq r.runtime.status launching
      then push
          (await_ready name generation probe
            (or_default r.spec.listen_timeout_ms s.ready_timeout_ms) s.ready_poll_interval_ms)
          t
      else t

  unfoldable pub await_ready_if_probing : Text → ℕ → Turn W → Option (Turn W)
  unfolding await_probe
  await_ready_if_probing name generation t = elim (find_by_name name t.supervisor.table) [
    | none ↦ none
    | some r ↦ some (await_probe t.supervisor name r generation r.spec.ready_probe t)
  ]

  -- `watch` of an outcome with a process id.
  unfoldable pub watch_pid : Text → ℕ → Turn W → Option (Turn W)
  watch_pid name pid t =
      let (timers, generation) = bump name t.supervisor.timers in
      await_ready_if_probing name generation (
        push (watch_exit name generation pid (identity_token t.supervisor name))
          (with_timers timers t))

  unfoldable pub watch : StartOutcome → Turn W → Option (Turn W)
  unfolding watch_pid
  watch o t = elim o.pid [
    | none ↦ some t
    | some pid ↦
        let watched = watch_pid o.name pid t in if needs_watching o.kind then watched else some t
  ]

  unfoldable pub watch_all : List StartOutcome → Turn W → Option (Turn W)
  watch_all [] t = some t
  watch_all (o ∷ os) t = elim (watch o t) [ none ↦ none | some t' ↦ watch_all os t' ]

  -- The new turn, and the name.
  unfoldable pub dispatch_restart : RestartOutcome → Turn W → Option (Turn W) × Text
  dispatch_restart (started o) t = (watch o t, o.name)
  dispatch_restart (awaiting_exit o) t = (
    some (schedule_force_kill o.name o.force_kill_pid (identity_token t.supervisor o.name) t),
    o.name,
  )

module _ {W : Type 0} (ports : Ports W) where
  -- A failure is logged.
  unfoldable pub restart_now : Text → Turn W → Option (Turn W)
  restart_now name t =
      let cancelled = cancel_restart name t in
      elim (restart_app ports cancelled.supervisor.table (by_name name)
        cancelled.supervisor.logs_dir cancelled.world) [
          | none ↦ none
          | some (ok outcome, table, w) ↦
              let (dispatched, restarted) =
                dispatch_restart outcome (with_table table (record cancelled { world = w })) in
              and_then dispatched (λ t'. some (arm_timer ports restarted t'))
          | some (err e, table, w) ↦ some (
              arm_timer ports name (
                fire_alert ports name launch_failed
                  (with_table table (record cancelled { world = w }))))
        ]

  unfoldable pub releases_waiters : Text → StartKind → Supervisor → Bool
  releases_waiters name scheduled s = true
  releases_waiters name _ s = elim (find_by_name name s.table) [
    | none ↦ false
    | some r ↦ status_eq r.runtime.status online
  ]

  -- A waiter whose launch has failed.
  unfoldable pub give_up_waiter : Text → Turn W → Option (Turn W)
  give_up_waiter waiter t = elim (mark_errored_if_settled waiter t.supervisor.table) [
    | none ↦ none
    | some table ↦ elim (fail_downstream waiter table t.supervisor.waiters) [
      | none ↦ none
      | some d ↦ some (
          fire_alert ports waiter launch_failed (record t {
            supervisor = record t.supervisor { table = d.table; waiters = d.waiters };
          }))
    ]
  ]

  -- The turn after one waiter, and whether its own waiters are released.
  unfoldable pub launch_waiter : Text → Turn W → Option (Turn W × Bool)
  unfolding give_up_waiter releases_waiters
  launch_waiter waiter t =
      elim (register_one ports t.supervisor.table waiter t.supervisor.logs_dir t.world) [
        | none ↦ none
        | some (ok o, table, w) ↦ elim (watch o (with_table table (record t { world = w }))) [
          | none ↦ none
          | some watched ↦
              let armed = arm_timer ports waiter watched in
              some (save_logged ports armed, releases_waiters waiter o.kind armed.supervisor)
        ]
        | some (err e, table, w) ↦
            elim (give_up_waiter waiter (with_table table (record t { world = w }))) [
              | none ↦ none
              | some t' ↦ some (save_logged ports t', false)
            ]
      ]

  -- The inner loop of `launch_waiters`: the queue, kept in reverse, and the turn.
  unfoldable pub launch_each : List Text → List Text → Turn W → Option (List Text × Turn W)
  unfolding launch_waiter
  launch_each [] queue t = some (queue, t)
  launch_each (waiter ∷ waiters) queue t =
      let skipped = launch_each waiters queue t in
      if still_waiting waiter t.supervisor.waiters then skipped else elim (launch_waiter waiter t) [
        | none ↦ none
        | some (t', released) ↦ launch_each waiters (if released then waiter ∷ queue else queue) t'
      ]

  -- `none` is a failed `expect`, or the end of the fuel.
  unfoldable pub launch_loop : ℕ → List Text → Turn W → Option (Turn W)
  unfolding launch_each waiters_of delete
  launch_loop zero queue t = none
  launch_loop (suc fuel) [] t = some t
  launch_loop (suc fuel) (name ∷ queue) t =
      let s = t.supervisor in
      elim (launch_each (waiters_of name s.waiters) queue
        (record t { supervisor = record s { waiters = delete name s.waiters } })) [
          | none ↦ none
          | some (queue', t') ↦ launch_loop fuel queue' t'
        ]

  unfoldable pub launch_waiters : Text → Turn W → Option (Turn W)
  unfolding launch_loop waiting_count
  launch_waiters name t = launch_loop (suc (suc (waiting_count t.supervisor.waiters))) (name ∷ []) t
