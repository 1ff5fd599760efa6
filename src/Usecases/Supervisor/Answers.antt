-- ===== src/Usecases/Supervisor/Answers.antt =====
-- supervisor.rs, supervisor_liveness.rs and supervisor_ready.rs: each answer to a report keeps the
-- state healthy, and never stops on an internal error.
use pm.Base.{
  ℕ, ◌≡◌, refl, true, some, List, [], ◌∷◌, is_empty, Memᴰ, All, Text, contains_text, Bool-cases,
  Option-cases, inl, inr,
}
use pm.Entities.Runtime.{mark_exited, mark_stopping}
use pm.Entities.Runtime.{identity_token as runtime_token}
use pm.Entities.Status.{errored, launching, status_eq}
use pm.Usecases.Alert.{memory_killed, liveness_killed, ready_failed, settle}
use pm.Usecases.Lifecycle.Records.{mark_errored-Keeps, classify_record-Keeps}
use pm.Usecases.Ports.{Ports, ExitOutcome, process_group}
use pm.Usecases.Query.{MemoryBreach, LivenessWatch, record_liveness, settle_stability}
use pm.Usecases.Record.{ProcessRecord}
use pm.Usecases.Supervise.{
  ExitAction, restart_after, settled, classify_record, classify_exit, handle_child_exit,
  settle_failed_probe,
}
use pm.Usecases.Supervisor.{Turn, with_table, fire_alert, save_logged}
use pm.Usecases.Supervisor.Downstream.{fail_downstream-returns}
use pm.Usecases.Supervisor.Events.{
  settle_exit, exit_known, restart_breached, blame_the_service, probe_one, probe_each,
  settle_the_stable,
}
use pm.Usecases.Supervisor.Healthy.{known-found, write-IsHealthy}
use pm.Usecases.Supervisor.Readiness.{fail_waiters, ready_timed_out, insert_name}
use pm.Usecases.Supervisor.Recovers.{Healthy, Succeeds, Same-Healthy, schedule_force_kill-Same}
use pm.Usecases.Supervisor.Restarts.{fire_alert-Healthy, blame_the_service-Succeeds}
use pm.Usecases.Supervisor.Timers.{queue_restart, schedule_force_kill}
use pm.Usecases.Supervisor.Watched.{
  record_liveness-Keeps, mark_stopping-Keeps, settle_stability-IsHealthy,
}
use pm.Usecases.Table.{has_name, find_by_name, write_record, save_table}

module _ {W : Type 0} {ns : List Text} where
  pub fail_waiters-Healthy :
      (name : Text) (t : Turn W)
      → Healthy ns t
      → (t' : Turn W) × (failed : List Text) × (fail_waiters name t ≡ some (t', failed))
        × Healthy ns t'
  unfolding fail_waiters
  fail_waiters-Healthy name t h =
      let s = t.supervisor in
      let (d, e, hd, fewer) = fail_downstream-returns name s.table s.waiters h in
      (
        record t { supervisor = record s { table = d.table; waiters = d.waiters } },
        d.failed,
        rw (e, fail_waiters) refl,
        hd,
      )

module _ {W : Type 0} (ports : Ports W) {ns : List Text} where
  settle_exit-Succeeds :
      (name : Text) (outcome : ExitOutcome) (action : ExitAction) (t : Turn W)
      → Healthy ns t
      → Succeeds ns (settle_exit ports name outcome action t)
  unfolding settle_exit queue_restart
  settle_exit-Succeeds name outcome (restart_after delay_ms) t h = h
  settle_exit-Succeeds name outcome (settled status alarming) t h =
      let (t', failed, e, h') = fail_waiters-Healthy name t h in
      let now = ports.now_ms t'.world in
      rw (e, settle_exit)
        (elim (Option-cases (settle name outcome alarming now.0 t'.supervisor.alerts).0) [
          | inl quiet ↦ rw quiet h'
          | inr (effect, loud) ↦ rw loud h'
        ])

  pub exit_known-Succeeds :
      (name : Text) (outcome : ExitOutcome) (t : Turn W)
      → Healthy ns t
      → Memᴰ name ns
      → Succeeds ns (exit_known ports name outcome t)
  unfolding exit_known settle_failed_probe handle_child_exit classify_exit
  exit_known-Succeeds name outcome t h m =
      let s = t.supervisor in
      let (r, found) = known-found h m in
      let now = (ports.now_ms t.world).0 in
      let classified = classify_record r outcome now in
      let table = write_record (has_name name) classified.0 s.table in
      let left : Turn W =
        with_table table
          (record t { world = (save_table ports table (ports.now_ms t.world).1).1 }) in
      elim (Bool-cases (contains_text s.ready_failed name)) [
        | inl e ↦
            rw (e, exit_known)
              (rw (found, settle_failed_probe)
                (write-IsHealthy name r (record r { runtime = mark_exited errored r.runtime }) h
                  found (mark_errored-Keeps r)))
        | inr e ↦
            rw (e, exit_known)
              (rw (found, handle_child_exit, classify_exit)
                (settle_exit-Succeeds name outcome classified.1 left (
                  write-IsHealthy name r classified.0 h found
                    (classify_record-Keeps r outcome now))))
      ]

  pub restart_breached-Succeeds :
      (breaches : List MemoryBreach) (t : Turn W)
      → Healthy ns t
      → All (λ b. Memᴰ b.name ns) breaches
      → Succeeds ns (restart_breached ports breaches t)
  unfolding restart_breached
  restart_breached-Succeeds [] t h a = h
  restart_breached-Succeeds (breach ∷ rest) t h a =
      let fired = fire_alert ports breach.name memory_killed t in
      let blamed =
        blame_the_service-Succeeds ports breach.name fired
          (fire_alert-Healthy ports breach.name memory_killed t h) a.0 in
      elim (Option-cases (blame_the_service ports breach.name fired)) [
        | inl e ↦ absurd (rw e at blamed)
        | inr (t', e) ↦
            let h' : Healthy ns t' = rw e at blamed in
            rw (e, restart_breached) (restart_breached-Succeeds rest t' h' a.1)
      ]

  probe_one-Succeeds :
      (threshold : ℕ) (watch : LivenessWatch) (t : Turn W)
      → Healthy ns t
      → Memᴰ watch.name ns
      → Succeeds ns (probe_one ports threshold watch t)
  unfolding probe_one
  probe_one-Succeeds threshold watch t h m =
      let s = t.supervisor in
      let (r, found) = known-found h m in
      let (verdict, w) = ports.check_ready watch.probe t.world in
      let (r', tripped) = record_liveness r verdict threshold in
      let noted =
        with_table (write_record (has_name watch.name) r' s.table) (record t { world = w }) in
      let hn : Healthy ns noted =
        write-IsHealthy watch.name r r' h found (record_liveness-Keeps r verdict threshold) in
      elim (Bool-cases tripped) [
        | inl e ↦
            rw (found, probe_one)
              (rw e (
                blame_the_service-Succeeds ports watch.name
                  (fire_alert ports watch.name liveness_killed noted)
                  (fire_alert-Healthy ports watch.name liveness_killed noted hn) m))
        | inr e ↦ rw (found, probe_one) (rw e hn)
      ]

  pub probe_each-Succeeds :
      (threshold : ℕ) (watches : List LivenessWatch) (t : Turn W)
      → Healthy ns t
      → All (λ w. Memᴰ w.name ns) watches
      → Succeeds ns (probe_each ports threshold watches t)
  unfolding probe_each
  probe_each-Succeeds threshold [] t h a = h
  probe_each-Succeeds threshold (watch ∷ rest) t h a =
      let probed = probe_one-Succeeds threshold watch t h a.0 in
      elim (Option-cases (probe_one ports threshold watch t)) [
        | inl e ↦ absurd (rw e at probed)
        | inr (t', e) ↦
            let h' : Healthy ns t' = rw e at probed in
            rw (e, probe_each) (probe_each-Succeeds threshold rest t' h' a.1)
      ]

  pub settle_the_stable-Healthy :
      (t : Turn W) → Healthy ns t → Healthy ns (settle_the_stable ports t)
  unfolding settle_the_stable save_logged
  settle_the_stable-Healthy t h =
      let (now, w) = ports.now_ms t.world in
      let settled_table = settle_stability t.supervisor.table now in
      let h' = settle_stability-IsHealthy now h in
      elim (Bool-cases (is_empty settled_table.1)) [
        | inl e ↦ rw (e, settle_the_stable) h'
        | inr e ↦ rw (e, settle_the_stable) h'
      ]

  pub ready_timed_out-Succeeds :
      (name : Text) (r : ProcessRecord) (pid : ℕ) (t : Turn W)
      → Healthy ns t
      → find_by_name name t.supervisor.table ≡ some r
      → status_eq r.runtime.status launching ≡ true
      → Succeeds ns (ready_timed_out ports name r pid t)
  unfolding ready_timed_out save_logged
  ready_timed_out-Succeeds name r pid t h found starting =
      let s = t.supervisor in
      let r' : ProcessRecord = record r { runtime = mark_stopping r.runtime } in
      let marked : Turn W = record t {
        supervisor = record s {
          table = write_record (has_name name) r' s.table;
          ready_failed = insert_name name s.ready_failed;
        };
        world = (ports.terminate pid process_group t.world).1;
      } in
      let hm : Healthy ns marked =
        write-IsHealthy name r r' h found (mark_stopping-Keeps r starting) in
      let token = runtime_token r'.runtime in
      let scheduled = schedule_force_kill name (some pid) token marked in
      let (t', failed, e, h') = fail_waiters-Healthy name scheduled (
        Same-Healthy marked scheduled (schedule_force_kill-Same name (some pid) token marked) hm) in
      rw (e, ready_timed_out) (fire_alert-Healthy ports name (ready_failed failed) t' h')
