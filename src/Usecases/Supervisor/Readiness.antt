-- ===== src/Usecases/Supervisor/Readiness.antt =====
-- The answers to a readiness probe, in usecases/src/supervisor_ready.rs. `none` is a failed
-- `expect` of the source, or the end of the fuel of a loop.
use pm.Base.{
  ℕ, Bool, false, not, ◌&&◌, Option, none, some, List, ◌∷◌, filter, Text, text_eq, contains_text,
  if◌then◌else◌,
}
use pm.Entities.Runtime.{mark_online, mark_stopping}
use pm.Entities.Runtime.{identity_token as runtime_token}
use pm.Entities.Status.{launching, status_eq}
use pm.Usecases.Alert.{ready_failed, cancel_ready as cancel_effect}
use pm.Usecases.Ports.{Ports, process_group}
use pm.Usecases.Record.{ProcessRecord}
use pm.Usecases.Supervisor.{Supervisor, Turn, push, with_table, fire_alert, save_logged}
use pm.Usecases.Supervisor.Launching.{launch_waiters}
use pm.Usecases.Supervisor.Timers.{schedule_force_kill}
use pm.Usecases.Supervisor.Waiters.{forget_waiter, fail_downstream}
use pm.Usecases.Table.{has_name, find_by_name, write_record}
use pm.Usecases.TimerState.{is_current}

unfoldable pub is_launching : Text → Supervisor → Bool
is_launching name s = elim (find_by_name name s.table) [
  | none ↦ false
  | some r ↦ status_eq r.runtime.status launching
]

unfoldable pub awaits_ready : Text → ℕ → Supervisor → Bool
unfolding is_launching
awaits_ready name generation s = is_current name generation s.timers && is_launching name s

-- `HashSet::insert` and `HashSet::remove`
unfoldable pub insert_name : Text → List Text → List Text
insert_name name names = if contains_text names name then names else name ∷ names

unfoldable pub remove_name : Text → List Text → List Text
remove_name name names = filter (λ n. not (text_eq n name)) names

module _ {W : Type 0} where
  -- `fail_downstream` on the whole state: the new turn, and the names that failed.
  unfoldable pub fail_waiters : Text → Turn W → Option (Turn W × List Text)
  fail_waiters name t = elim (fail_downstream name t.supervisor.table t.supervisor.waiters) [
    | none ↦ none
    | some d ↦ some (
      record t { supervisor = record t.supervisor { table = d.table; waiters = d.waiters } },
      d.failed,
    )
  ]

  unfoldable pub cancel_ready : Text → Turn W → Option (Turn W)
  unfolding fail_waiters remove_name
  cancel_ready name t =
      let s = t.supervisor in
      let forgotten : Turn W = record t {
        supervisor = record s {
          ready_failed = remove_name name s.ready_failed;
          waiters = forget_waiter name s.waiters;
        };
      } in
      elim (fail_waiters name forgotten) [
        | none ↦ none
        | some (t', failed) ↦ some (push (cancel_effect name) t')
      ]

module _ {W : Type 0} (ports : Ports W) where
  unfoldable pub on_ready : Text → ℕ → Turn W → Option (Turn W)
  unfolding awaits_ready
  on_ready name generation t =
      let s = t.supervisor in
      let answer : Option (Turn W) = elim (find_by_name name s.table) [
        | none ↦ none
        | some r ↦
            let r' : ProcessRecord = record r { runtime = mark_online r.runtime } in
            launch_waiters ports name
              (save_logged ports (with_table (write_record (has_name name) r' s.table) t))
      ] in
      if awaits_ready name generation s then answer else some t

  -- `on_ready_timeout` past its guard, on the record of the name and its process id.
  unfoldable pub ready_timed_out : Text → ProcessRecord → ℕ → Turn W → Option (Turn W)
  unfolding fail_waiters insert_name
  ready_timed_out name r pid t =
      let s = t.supervisor in
      let r' : ProcessRecord = record r { runtime = mark_stopping r.runtime } in
      let (sent, w) = ports.terminate pid process_group t.world in
      let marked : Turn W = record t {
        supervisor = record s {
          table = write_record (has_name name) r' s.table;
          ready_failed = insert_name name s.ready_failed;
        };
        world = w;
      } in
      elim (fail_waiters name
        (schedule_force_kill name (some pid) (runtime_token r'.runtime) marked)) [
          | none ↦ none
          | some (t', downstream) ↦
              some (save_logged ports (fire_alert ports name (ready_failed downstream) t'))
        ]

  unfoldable pub on_ready_timeout : Text → ℕ → Turn W → Option (Turn W)
  unfolding awaits_ready ready_timed_out
  on_ready_timeout name generation t =
      let answer : Option (Turn W) = elim (find_by_name name t.supervisor.table) [
        | none ↦ none
        | some r ↦ elim r.runtime.pid [ none ↦ none | some pid ↦ ready_timed_out name r pid t ]
      ] in
      if awaits_ready name generation t.supervisor then answer else some t
