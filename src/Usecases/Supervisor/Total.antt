-- ===== src/Usecases/Supervisor/Total.antt =====
-- supervisor.rs and the files beside it: a series of reports of the daemon.
use pm.Base.{
  ℕ, ◌≡◌, true, some, List, map, is_empty, Text, Bool-cases, Option-cases, inl, inr, arith,
}
use pm.Entities.Runtime.{mark_online, is_none}
use pm.Entities.Status.{launching, status_eq, is_settled}
use pm.Usecases.Alert.{cancel_force_kill, schedule_memory_sample, schedule_liveness_sample}
use pm.Usecases.Ports.{Ports, ExitOutcome}
use pm.Usecases.Query.{memory_watch_list, breached_memory, liveness_watch_list}
use pm.Usecases.Record.{ProcessRecord}
use pm.Usecases.Supervisor.{Supervisor, Turn, push, with_table, with_timers, save_logged}
use pm.Usecases.Supervisor.Answers.{
  exit_known-Succeeds, restart_breached-Succeeds, probe_each-Succeeds, settle_the_stable-Healthy,
  ready_timed_out-Succeeds,
}
use pm.Usecases.Supervisor.Events.{
  on_exit, on_restart, on_fire, on_memory_sample, on_liveness_sample, probe_each,
}
use pm.Usecases.Supervisor.Healthy.{found-known, found-IsSound, write-IsHealthy}
use pm.Usecases.Supervisor.Readiness.{is_launching, awaits_ready, on_ready, on_ready_timeout}
use pm.Usecases.Supervisor.Recovers.{Healthy, Succeeds}
use pm.Usecases.Supervisor.Releases.{launch_waiters-Succeeds}
use pm.Usecases.Supervisor.Restarts.{restart_now-Succeeds}
use pm.Usecases.Supervisor.Watched.{
  memory_watch_list-known, liveness_watch_list-known, breached_memory-known, mark_online-Keeps,
}
use pm.Usecases.Table.{has_name, find_by_name, write_record}
use pm.Usecases.Table.Invariant.{IsSound}
use pm.Usecases.TimerState.{is_current, claim_restart, fire_is_due}

-- A launching service of a sound record has a process id.
launching_pid :
    (r : ProcessRecord)
    → status_eq r.runtime.status launching ≡ true
    → IsSound r
    → (pid : ℕ) × (r.runtime.pid ≡ some pid)
launching_pid r starting s = elim (Option-cases r.runtime.pid) [
  | inl absent ↦
      let settled : is_none r.runtime.pid ≡ is_settled r.runtime.status = s.0.pid in
      absurd (ground arith)
  | inr live ↦ live
]

launching_record :
    (name : Text) (s : Supervisor)
    → is_launching name s ≡ true
    → (r : ProcessRecord) × (find_by_name name s.table ≡ some r)
      × (status_eq r.runtime.status launching ≡ true)
unfolding is_launching
launching_record name s h = elim (Option-cases (find_by_name name s.table)) [
  | inl absent ↦ let h' = rw (absent, is_launching) at h in cc
  | inr (r, found) ↦ (r, found, rw (found, is_launching) at h)
]

awaits_ready-launching :
    (name : Text) (generation : ℕ) (s : Supervisor)
    → awaits_ready name generation s ≡ true
    → is_launching name s ≡ true
unfolding awaits_ready
awaits_ready-launching name generation s h = ground arith

module _ {W : Type 0} (ports : Ports W) {ns : List Text} where
  pub on_exit-Succeeds :
      (name : Text) (generation : ℕ) (outcome : ExitOutcome) (t : Turn W)
      → Healthy ns t
      → Succeeds ns (on_exit ports name generation outcome t)
  unfolding on_exit
  on_exit-Succeeds name generation outcome t h =
      elim (Bool-cases (is_current name generation t.supervisor.timers)) [
        | inr e ↦ rw (e, on_exit) h
        | inl e ↦ elim (Option-cases (find_by_name name t.supervisor.table)) [
          | inl absent ↦ rw (e, on_exit) (rw absent h)
          | inr (r, found) ↦
              rw (e, on_exit)
                (rw found (
                  exit_known-Succeeds ports name outcome (push (cancel_force_kill name) t) h
                    (found-known h found)))
        ]
      ]

  pub on_restart-Succeeds :
      (name : Text) (t : Turn W) → Healthy ns t → Succeeds ns (on_restart ports name t)
  unfolding on_restart
  on_restart-Succeeds name t h =
      let (timers, claimed) = claim_restart name t.supervisor.timers in
      elim (Bool-cases claimed) [
        | inl e ↦ rw (e, on_restart) (restart_now-Succeeds ports name (with_timers timers t) h)
        | inr e ↦ rw (e, on_restart) h
      ]

  pub on_fire-Succeeds :
      (name : Text) (fire_at_ms : ℕ) (t : Turn W)
      → Healthy ns t
      → Succeeds ns (on_fire ports name fire_at_ms t)
  unfolding on_fire
  on_fire-Succeeds name fire_at_ms t h =
      elim (Bool-cases (fire_is_due name fire_at_ms t.supervisor.timers)) [
        | inl e ↦ rw (e, on_fire) (restart_now-Succeeds ports name t h)
        | inr e ↦ rw (e, on_fire) h
      ]

  pub on_memory_sample-Succeeds :
      (interval_ms : ℕ) (t : Turn W)
      → Healthy ns t
      → Succeeds ns (on_memory_sample ports interval_ms t)
  unfolding on_memory_sample
  on_memory_sample-Succeeds interval_ms t h =
      let next = push (schedule_memory_sample interval_ms) t in
      let watched = memory_watch_list t.supervisor.table in
      let (sampled, w) = ports.resident_memory (map (λ m. m.pid) watched) t.world in
      elim (Bool-cases (is_empty watched)) [
        | inl e ↦ rw (e, on_memory_sample) h
        | inr e ↦
            rw (e, on_memory_sample)
              (restart_breached-Succeeds ports (breached_memory watched sampled)
                (record next { world = w }) h
                (breached_memory-known ns watched sampled (memory_watch_list-known h)))
      ]

  pub on_liveness_sample-Succeeds :
      (interval_ms threshold : ℕ) (t : Turn W)
      → Healthy ns t
      → Succeeds ns (on_liveness_sample ports interval_ms threshold t)
  unfolding on_liveness_sample
  on_liveness_sample-Succeeds interval_ms threshold t h =
      let next = push (schedule_liveness_sample interval_ms) t in
      let watches = liveness_watch_list t.supervisor.table in
      let probed =
        probe_each-Succeeds ports threshold watches next h (liveness_watch_list-known h) in
      elim (Option-cases (probe_each ports threshold watches next)) [
        | inl e ↦ absurd (rw e at probed)
        | inr (t', e) ↦
            let h' : Healthy ns t' = rw e at probed in
            rw (e, on_liveness_sample) (settle_the_stable-Healthy ports t' h')
      ]

  pub on_ready-Succeeds :
      (name : Text) (generation : ℕ) (t : Turn W)
      → Healthy ns t
      → Succeeds ns (on_ready ports name generation t)
  unfolding on_ready save_logged
  on_ready-Succeeds name generation t h =
      elim (Bool-cases (awaits_ready name generation t.supervisor)) [
        | inr e ↦ rw (e, on_ready) h
        | inl e ↦
            let s = t.supervisor in
            let (r, found, starting) =
              launching_record name s (awaits_ready-launching name generation s e) in
            let r' : ProcessRecord = record r { runtime = mark_online r.runtime } in
            let marked =
              save_logged ports (with_table (write_record (has_name name) r' s.table) t) in
            rw (e, on_ready)
              (rw found (
                launch_waiters-Succeeds ports name marked
                  (write-IsHealthy name r r' h found (mark_online-Keeps r starting))
                  (found-known h found)))
      ]

  pub on_ready_timeout-Succeeds :
      (name : Text) (generation : ℕ) (t : Turn W)
      → Healthy ns t
      → Succeeds ns (on_ready_timeout ports name generation t)
  unfolding on_ready_timeout
  on_ready_timeout-Succeeds name generation t h =
      elim (Bool-cases (awaits_ready name generation t.supervisor)) [
        | inr e ↦ rw (e, on_ready_timeout) h
        | inl e ↦
            let s = t.supervisor in
            let (r, found, starting) =
              launching_record name s (awaits_ready-launching name generation s e) in
            let (pid, live) = launching_pid r starting (found-IsSound name h found) in
            rw (e, on_ready_timeout)
              (rw found (rw live (ready_timed_out-Succeeds ports name r pid t h found starting)))
      ]
