-- ===== src/Usecases/Supervisor/Handlers.antt =====
-- usecases/src/supervisor_handlers.rs, but for start and restart, which stand in Batches.
-- A handler returns its outcome and the turn that it leaves, also on an error; `none` is a failed
-- `expect` of the source, or the end of the fuel of a loop.
use pm.Base.{
  ℕ, Option, none, some, List, [], ◌∷◌, map, filter_map, reverse, Text, ok, err, if◌then◌else◌,
}
use pm.Entities.Status.{is_shutting_down}
use pm.Usecases.Alert.{forget}
use pm.Usecases.Delete.{delete_app, delete_one}
use pm.Usecases.Ports.{Ports, UsecaseError}
use pm.Usecases.Query.{identity_token_of, unswept_pids, owner_of_pid}
use pm.Usecases.Selector.{AppSelector, every, name as by_name}
use pm.Usecases.Stop.{StopOutcome, stop_app, stop_all_apps, reset_app, signal_app}
use pm.Usecases.Supervision.{
  SupervisionOutcome, SupervisionReply, usecase_failure, stopped, stopped_all, deleted, deleted_all,
  was_reset, reset_all as all_reset, signalled,
}
use pm.Usecases.Supervisor.{Turn, with_table, with_alerts}
use pm.Usecases.Supervisor.{identity_token as token_of}
use pm.Usecases.Supervisor.Readiness.{cancel_ready}
use pm.Usecases.Supervisor.Timers.{disarm, cancel_restart, disarm_everything, schedule_force_kill}
use pm.Usecases.Table.{find_record, names_in_table_order, dependency_order}

module _ {W : Type 0} where
  unfoldable pub retire : Text → Option ℕ → Option Text → Turn W → Option (Turn W)
  retire name force_kill_pid token t =
      elim (cancel_ready name (cancel_restart name (disarm name t))) [
        | none ↦ none
        | some t' ↦ some (
            schedule_force_kill name force_kill_pid token
              (with_alerts (forget name t'.supervisor.alerts) t'))
      ]

  unfoldable pub cover_draining : AppSelector → Turn W → Option (Turn W)
  unfolding retire
  cover_draining selector t = elim (find_record selector t.supervisor.table) [
    | none ↦ some t
    | some r ↦
        let covered : Option (Turn W) = elim r.runtime.pid [
          | none ↦ none
          | some pid ↦
              retire r.runtime.name (some pid) (identity_token_of t.supervisor.table selector) t
        ] in
        if is_shutting_down r.runtime.status then covered else some t
  ]

  -- `Err(error)` after `cover_draining`.
  unfoldable pub refuse : AppSelector → UsecaseError → Turn W → Option (SupervisionOutcome × Turn W)
  unfolding cover_draining
  refuse selector e t = elim (cover_draining selector t) [
    | none ↦ none
    | some t' ↦ some (err (usecase_failure e), t')
  ]

  -- `retire` of what a stop or a deletion has stopped, and the reply.
  unfoldable pub retire_stopped :
      (Text → SupervisionReply)
      → StopOutcome
      → Option Text
      → Turn W
      → Option (SupervisionOutcome × Turn W)
  unfolding retire
  retire_stopped reply o token t = elim (retire o.name o.force_kill_pid token t) [
    | none ↦ none
    | some t' ↦ some (ok (reply o.name), t')
  ]

  -- The loop of `stop_all` over what was stopped.
  unfoldable pub cover_stopped : List StopOutcome → Turn W → Turn W
  cover_stopped [] t = t
  cover_stopped (o ∷ os) t =
      cover_stopped os
        (schedule_force_kill o.name o.force_kill_pid (token_of t.supervisor o.name) t)

  unfoldable pub cancel_ready_all : List Text → Turn W → Option (Turn W)
  cancel_ready_all [] t = some t
  cancel_ready_all (name ∷ names) t = elim (cancel_ready name t) [
    | none ↦ none
    | some t' ↦ cancel_ready_all names t'
  ]

  unfoldable pub cover_strays : List ℕ → Turn W → Turn W
  cover_strays [] t = t
  cover_strays (pid ∷ pids) t =
      let (name, token) = owner_of_pid t.supervisor.table pid in
      cover_strays pids (schedule_force_kill name (some pid) token t)

abbrev pids_of : List StopOutcome → List ℕ
pids_of os = filter_map (λ o. o.force_kill_pid) os

module _ {W : Type 0} (ports : Ports W) where
  unfoldable pub stop_all : Turn W → Option (SupervisionOutcome × Turn W)
  unfolding cover_stopped cancel_ready_all cover_strays
  stop_all t =
      let disarmed = disarm_everything t in
      elim (stop_all_apps ports disarmed.supervisor.table disarmed.world) [
        | none ↦ none
        | some (outcomes, table, w) ↦
            let covered =
              cover_stopped outcomes (with_table table (record disarmed { world = w })) in
            elim (cancel_ready_all (names_in_table_order table) covered) [
              | none ↦ none
              | some t' ↦
                  let (tracked, w') = ports.tracked_pids t'.world in
                  some (
                    ok (stopped_all (map (λ o. o.name) outcomes)),
                    cover_strays (unswept_pids tracked (pids_of outcomes))
                        (record t' { world = w' }),
                  )
            ]
      ]

  unfoldable pub stop : AppSelector → Turn W → Option (SupervisionOutcome × Turn W)
  unfolding refuse retire_stopped stop_all
  stop every t = stop_all t
  stop selector t =
      let (attempted, table, w) = stop_app ports t.supervisor.table selector t.world in
      let t' = with_table table (record t { world = w }) in
      elim attempted [
        | err e ↦ refuse selector e t'
        | ok o ↦ retire_stopped stopped o (token_of t'.supervisor o.name) t'
      ]

  -- A failed deletion is logged.
  unfoldable pub delete_each : List Text → Turn W → Option (List Text × Turn W)
  unfolding retire cover_draining
  delete_each [] t = some ([], t)
  delete_each (name ∷ names) t = elim (delete_one ports t.supervisor.table name t.world) [
    | none ↦ none
    | some (ok o, table, w) ↦
        elim (retire o.name o.force_kill_pid (token_of t.supervisor name)
          (with_table table (record t { world = w }))) [
            | none ↦ none
            | some t' ↦ elim (delete_each names t') [
              | none ↦ none
              | some (deleted_names, t'') ↦ some (o.name ∷ deleted_names, t'')
            ]
          ]
    | some (err e, table, w) ↦
        elim (cover_draining (by_name name) (with_table table (record t { world = w }))) [
          | none ↦ none
          | some t' ↦ delete_each names t'
        ]
  ]

  unfoldable pub delete_all : Turn W → Option (SupervisionOutcome × Turn W)
  unfolding delete_each
  delete_all t = elim (dependency_order t.supervisor.table) [
    | none ↦ none
    | some order ↦ elim (delete_each (reverse order) t) [
      | none ↦ none
      | some (names, t') ↦ some (ok (deleted_all names), t')
    ]
  ]

  unfoldable pub delete : AppSelector → Turn W → Option (SupervisionOutcome × Turn W)
  unfolding refuse retire_stopped delete_all
  delete every t = delete_all t
  delete selector t =
      let token = identity_token_of t.supervisor.table selector in
      elim (delete_app ports t.supervisor.table selector t.world) [
        | none ↦ none
        | some (err e, table, w) ↦ refuse selector e (with_table table (record t { world = w }))
        | some (ok o, table, w) ↦
            retire_stopped deleted o token (with_table table (record t { world = w }))
      ]

  -- A failed reset is logged.
  unfoldable pub reset_each : List Text → Turn W → List Text × Turn W
  reset_each [] t = ([], t)
  reset_each (name ∷ names) t =
      let (attempted, table, w) = reset_app ports t.supervisor.table (by_name name) t.world in
      let (rest, t') = reset_each names (with_table table (record t { world = w })) in
      ((elim attempted [ ok done ↦ done ∷ rest | err e ↦ rest ]), t')

  unfoldable pub reset_all : Turn W → SupervisionOutcome × Turn W
  unfolding reset_each
  reset_all t =
      let (names, t') = reset_each (names_in_table_order t.supervisor.table) t in
      (ok (all_reset names), t')

  unfoldable pub reset : AppSelector → Turn W → SupervisionOutcome × Turn W
  unfolding reset_all
  reset every t = reset_all t
  reset selector t =
      let (attempted, table, w) = reset_app ports t.supervisor.table selector t.world in
      (
        (elim attempted [ ok name ↦ ok (was_reset name) | err e ↦ err (usecase_failure e) ]),
        with_table table (record t { world = w }),
      )

  unfoldable pub signal :
      (to_uppercase : Text → Text) → AppSelector → Text → Turn W → SupervisionOutcome × Turn W
  signal to_uppercase selector raw t =
      let (sent, w) = signal_app ports to_uppercase t.supervisor.table selector raw t.world in
      (
        (elim sent [ ok o ↦ ok (signalled o.name o.signal) | err e ↦ err (usecase_failure e) ]),
        record t { world = w },
      )
