-- ===== src/Frameworks/Daemon/Runs.antt =====
-- actor.rs: any series of reports of the daemon's tasks is answered.
use pm.Base.{
  ℕ, zero, suc, ◌-◌, ◌≤◌, ◌<◌, ◌≡◌, refl, max_u64, saturating_add, Bool, true, Option, none, some,
  List, [], ◌∷◌, All, Text, ltb, Bool-cases, Option-cases, inl, inr, arith,
}
use pm.Frameworks.Daemon.{
  Daemon, begin, finish, finish_if, drain_loop, wait_until_drained, shutdown, apply,
}
use pm.Frameworks.Daemon.Board.{DaemonEvent}
use pm.Usecases.Ports.{Ports, SpecResolver}
use pm.Usecases.Supervisor.{Turn}
use pm.Usecases.Supervisor.Events.{
  on_exit, on_restart, on_fire, on_memory_sample, on_liveness_sample, on_log_rotate,
  prepare_shutdown, drained,
}
use pm.Usecases.Supervisor.Readiness.{on_ready, on_ready_timeout}
use pm.Usecases.Supervisor.Healthy.{IsHealthy}
use pm.Usecases.Supervisor.Recovers.{Healthy, Succeeds, Same, Same-Healthy}
use pm.Usecases.Supervisor.Timers.{disarm_everything}
use pm.Usecases.Supervisor.Total.{
  on_exit-Succeeds, on_restart-Succeeds, on_fire-Succeeds, on_memory_sample-Succeeds,
  on_liveness_sample-Succeeds, on_ready-Succeeds, on_ready_timeout-Succeeds,
}

-- An event that a task sends, not a command of a client.
abbrev pub IsReport : DaemonEvent → Type 0
IsReport (DaemonEvent.command request) = ⊥
IsReport _ = Unit

-- A daemon whose supervisor is healthy and whose polls make progress.
pub record IsDaemon (ns : List Text) (d : Daemon) : Type 0 where
  pub healthy : IsHealthy ns d.supervisor.table d.supervisor.waiters
  pub polls : 1 ≤ d.poll_interval_ms
  pub bounded : d.kill_timeout_ms ≤ max_u64

abbrev pub Answered : {W : Type 0} → List Text → Option (Daemon × W) → Type 0
Answered ns none = ⊥
Answered ns (some (d, w)) = IsDaemon ns d

module _ {W : Type 0} {ns : List Text} where
  finish-Answered :
      (d : Daemon) (t : Turn W) → IsDaemon ns d → Healthy ns t → Answered ns (some (finish d t))
  unfolding finish
  finish-Answered d t v h = record { healthy = h; polls = v.polls; bounded = v.bounded }

  finish_if-Answered :
      (d : Daemon) (o : Option (Turn W))
      → IsDaemon ns d
      → Succeeds ns o
      → Answered ns (finish_if d o)
  finish_if-Answered d none v s = s
  finish_if-Answered d (some t) v s = finish-Answered d t v s

module _ {W : Type 0} (ports : Ports W) (sleep : ℕ → W → W) where
  -- Each round of the wait adds at least a millisecond to what has been waited.
  drain_loop-returns :
      (fuel : ℕ) (d : Daemon) (waited : ℕ) (w : W)
      → 1 ≤ d.poll_interval_ms
      → d.kill_timeout_ms ≤ max_u64
      → d.kill_timeout_ms - waited < fuel
      → (is_drained : Bool) × (w' : W) × (drain_loop ports sleep fuel d waited w
          ≡ some (is_drained, w'))
  unfolding drain_loop
  drain_loop-returns zero d waited w polls bounded enough = absurd (omega arith)
  drain_loop-returns (suc fuel) d waited w polls bounded enough =
      let asked = ports.tracked_pids w in
      elim (Bool-cases (ltb waited d.kill_timeout_ms)) [
        | inr e ↦ (drained d.supervisor asked.0, asked.1, rw (e, drain_loop) refl)
        | inl e ↦ elim (Bool-cases (drained d.supervisor asked.0)) [
          | inl done ↦ (true, asked.1, rw (e, drain_loop) (rw done refl))
          | inr more ↦
              let (is_drained, w', g) =
                drain_loop-returns fuel d (saturating_add max_u64 waited d.poll_interval_ms)
                  (sleep d.poll_interval_ms asked.1) polls bounded (ground arith) in
              (is_drained, w', rw (e, drain_loop) (rw more g))
        ]
      ]

  -- The wait for the tracked processes to leave ends within the fuel that the timeout gives.
  wait_until_drained-returns :
      (d : Daemon) (w : W)
      → 1 ≤ d.poll_interval_ms
      → d.kill_timeout_ms ≤ max_u64
      → (is_drained : Bool) × (w' : W) × (wait_until_drained ports sleep d w
          ≡ some (is_drained, w'))
  unfolding wait_until_drained
  wait_until_drained-returns d w polls bounded =
      drain_loop-returns (suc d.kill_timeout_ms) d 0 w polls bounded (omega arith)

  prepare_shutdown-Same : (t : Turn W) → Same t (prepare_shutdown ports t)
  unfolding prepare_shutdown disarm_everything
  prepare_shutdown-Same t = (refl, refl)

  shutdown-Answered :
      {ns : List Text} (d : Daemon) (w : W) → IsDaemon ns d → Answered ns (shutdown ports sleep d w)
  unfolding shutdown
  shutdown-Answered {ns} d w v =
      let t = prepare_shutdown ports (begin d w) in
      let left = finish d t in
      let v' : IsDaemon ns left.0 =
        finish-Answered d t v
          (Same-Healthy (begin d w) t (prepare_shutdown-Same (begin d w)) v.healthy) in
      let (is_drained, w', g) = wait_until_drained-returns left.0 left.1 v'.polls v'.bounded in
      elim (Bool-cases is_drained) [
        | inl e ↦ rw (g, shutdown) (rw e v')
        | inr e ↦ rw (g, shutdown) (rw e v')
      ]

  on_log_rotate-Same :
      (d : Daemon) (t : Turn W)
      → Same t (on_log_rotate ports d.log_rotate_max_bytes d.log_rotate_interval_ms t)
  unfolding on_log_rotate
  on_log_rotate-Same d t = (ground arith, ground arith)

  apply-Answered :
      {ns : List Text} (resolver : SpecResolver W) (to_uppercase : Text → Text)
      (event : DaemonEvent) (d : Daemon) (w : W)
      → IsReport event
      → IsDaemon ns d
      → Answered ns (apply ports sleep resolver to_uppercase event d w)
  unfolding apply
  apply-Answered resolver up (DaemonEvent.command request) d w r v = absurd r
  apply-Answered resolver up (DaemonEvent.exited name generation outcome) d w r v =
      finish_if-Answered d (on_exit ports name generation outcome (begin d w)) v
        (on_exit-Succeeds ports name generation outcome (begin d w) v.healthy)
  apply-Answered resolver up (DaemonEvent.restart name) d w r v =
      finish_if-Answered d (on_restart ports name (begin d w)) v
        (on_restart-Succeeds ports name (begin d w) v.healthy)
  apply-Answered resolver up (DaemonEvent.fire name fire_at_ms) d w r v =
      finish_if-Answered d (on_fire ports name fire_at_ms (begin d w)) v
        (on_fire-Succeeds ports name fire_at_ms (begin d w) v.healthy)
  apply-Answered resolver up (DaemonEvent.force_kill name generation pid token) d w r v = record {
    healthy = v.healthy;
    polls = v.polls;
    bounded = v.bounded;
  }
  apply-Answered resolver up DaemonEvent.sample_memory d w r v =
      finish_if-Answered d (on_memory_sample ports d.memory_poll_interval_ms (begin d w)) v
        (on_memory_sample-Succeeds ports d.memory_poll_interval_ms (begin d w) v.healthy)
  apply-Answered resolver up DaemonEvent.sample_liveness d w r v =
      finish_if-Answered d
        (on_liveness_sample ports d.liveness_poll_interval_ms d.liveness_failure_threshold
          (begin d w))
        v
        (on_liveness_sample-Succeeds ports d.liveness_poll_interval_ms d.liveness_failure_threshold
          (begin d w) v.healthy)
  apply-Answered resolver up DaemonEvent.rotate_logs d w r v =
      let t = on_log_rotate ports d.log_rotate_max_bytes d.log_rotate_interval_ms (begin d w) in
      finish-Answered d t v
        (Same-Healthy (begin d w) t (on_log_rotate-Same d (begin d w)) v.healthy)
  apply-Answered resolver up (DaemonEvent.ready name generation) d w r v =
      finish_if-Answered d (on_ready ports name generation (begin d w)) v
        (on_ready-Succeeds ports name generation (begin d w) v.healthy)
  apply-Answered resolver up (DaemonEvent.ready_timeout name generation reason) d w r v =
      finish_if-Answered d (on_ready_timeout ports name generation (begin d w)) v
        (on_ready_timeout-Succeeds ports name generation (begin d w) v.healthy)
  apply-Answered resolver up DaemonEvent.shutdown d w r v = shutdown-Answered d w v

  -- A series of events; `none` is an internal error of the source, or the end of the fuel of a loop.
  pub run :
      SpecResolver W
      → (to_uppercase : Text → Text) → List DaemonEvent
      → Daemon
      → W
      → Option (Daemon × W)
  run resolver up [] d w = some (d, w)
  run resolver up (event ∷ events) d w = elim (apply ports sleep resolver up event d w) [
    | none ↦ none
    | some (d', w') ↦ run resolver up events d' w'
  ]

  -- From a table that holds its invariant, and in which every waiting service has a record, a daemon
  -- whose poll interval is at least a millisecond, and whose kill timeout is a 64-bit number, answers
  -- any series of reports of its tasks: exits, restarts and timers that are due, forced kills, samples
  -- of memory and liveness, log rotations, answers and timeouts of readiness probes, and a shutdown.
  -- Whatever they name and whatever the outside answers, no `expect` fails and every loop ends within
  -- its fuel, and the daemon that is left is such a daemon again, with the same services.
  pub run-Answered :
      {ns : List Text} (resolver : SpecResolver W) (to_uppercase : Text → Text)
      (events : List DaemonEvent) (d : Daemon) (w : W)
      → All IsReport events
      → IsDaemon ns d
      → Answered ns (run resolver to_uppercase events d w)
  unfolding run
  run-Answered resolver up [] d w reports v = v
  run-Answered {ns} resolver up (event ∷ events) d w reports v =
      let answered = apply-Answered resolver up event d w reports.0 v in
      elim (Option-cases (apply ports sleep resolver up event d w)) [
        | inl e ↦ absurd (rw e at answered)
        | inr ((d', w'), e) ↦
            let v' : IsDaemon ns d' = rw e at answered in
            rw (e, run) (run-Answered resolver up events d' w' reports.1 v')
      ]
