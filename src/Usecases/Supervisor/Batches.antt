-- ===== src/Usecases/Supervisor/Batches.antt =====
-- The handlers of usecases/src/supervisor_handlers.rs that read declarations anew: start and
-- restart. `none` is a failed `expect` of the source, or the end of the fuel of a loop.
use pm.Base.{
  Bool, true, false, Option, none, some, List, [], ◌∷◌, is_empty, Text, Result, ok, err,
  if◌then◌else◌,
}
use pm.Entities.Spec.{AppSpec}
use pm.Usecases.Launch.{StartOutcome, StartKind, deferred}
use pm.Usecases.Messages.{error_message}
use pm.Usecases.Ports.{Ports, SpecResolver, SpecResolveError, UsecaseError}
use pm.Usecases.Restart.{restart_app}
use pm.Usecases.Selector.{AppSelector, every, name as by_name}
use pm.Usecases.Start.{StartReport, start_apps, refused_services}
use pm.Usecases.Supervision.{
  SupervisionOutcome, usecase_failure, spec_failure, started, restarted, restarted_all,
}
use pm.Usecases.Supervisor.{Turn, with_table}
use pm.Usecases.Supervisor.Launching.{watch_all, dispatch_restart}
use pm.Usecases.Supervisor.Timers.{cancel_restart, arm_timer}
use pm.Usecases.Supervisor.Waiters.{defer_starts}
use pm.Usecases.Table.{
  ProcessTable, selects, has_name, find_record, find_by_name, write_record, names_in_table_order,
}

abbrev is_deferred : StartKind → Bool
is_deferred deferred = true
is_deferred _ = false

abbrev first_error : Option UsecaseError → Option UsecaseError → Option UsecaseError
first_error none unsaved = unsaved
first_error (some e) unsaved = some e

abbrev message_of : Option UsecaseError → Option Text
message_of none = none
message_of (some e) = some (error_message e)

module _ {W : Type 0} (resolver : SpecResolver W) where
  -- The loop over the services, which the first error ends.
  unfoldable pub prepare_all : List Text → W → Result (List AppSpec) SpecResolveError × W
  prepare_all [] w = (ok [], w)
  prepare_all (name ∷ names) w =
      let (prepared, w') = resolver.prepare name w in
      let (rest, w'') = prepare_all names w' in
      elim prepared [
        | err e ↦ (err e, w')
        | ok spec ↦ ((elim rest [ ok specs ↦ ok (spec ∷ specs) | err e ↦ err e ]), w'')
      ]

  -- `find_mut` and the write of the new spec.
  unfoldable pub reload_declaration :
      AppSelector → ProcessTable → W → Result ProcessTable SpecResolveError × W
  reload_declaration selector table w = elim (find_record selector table) [
    | none ↦ (ok table, w)
    | some r ↦
        let (prepared, w') = resolver.prepare r.runtime.name w in
        (
          (elim prepared [
            | ok spec ↦ ok (write_record (selects selector) (record r { spec = spec }) table)
            | err e ↦ err e
          ]),
          w',
        )
  ]

unfoldable pub reload_spec : Text → AppSpec → ProcessTable → Option ProcessTable
reload_spec name spec table = elim (find_by_name name table) [
  | none ↦ none
  | some r ↦ some (write_record (has_name name) (record r { spec = spec }) table)
]

module _ {W : Type 0} (ports : Ports W) (resolver : SpecResolver W) where
  -- The loop over what was started.
  unfoldable pub arm_started : List StartOutcome → Turn W → Turn W
  arm_started [] t = t
  arm_started (o ∷ os) t =
      let cancelled = cancel_restart o.name t in
      arm_started os (if is_deferred o.kind then cancelled else arm_timer ports o.name cancelled)

  abbrev start_reply : List Text → StartReport → SupervisionOutcome
  start_reply services report =
      if is_empty report.outcomes
      then elim (first_error report.failure report.unsaved) [
        | some e ↦ err (usecase_failure e)
        | none ↦ ok (started [] [] none none)
      ]
      else ok (
          started report.outcomes (refused_services services report.outcomes)
            (message_of report.failure) (message_of report.unsaved))

  unfoldable pub start_specs :
      List Text → List AppSpec → Turn W → Option (SupervisionOutcome × Turn W)
  unfolding arm_started
  start_specs services specs t =
      elim (start_apps ports t.supervisor.table specs t.supervisor.logs_dir t.world) [
        | none ↦ none
        | some (report, table, w) ↦
            elim (watch_all report.outcomes (with_table table (record t { world = w }))) [
              | none ↦ none
              | some t' ↦
                  let s = t'.supervisor in
                  let deferred_turn : Turn W = record t' {
                    supervisor = record s { waiters = defer_starts report.pending s.waiters };
                  } in
                  some (start_reply services report, arm_started report.outcomes deferred_turn)
            ]
      ]

  unfoldable pub start : List Text → Turn W → Option (SupervisionOutcome × Turn W)
  unfolding prepare_all start_specs
  start services t =
      let (prepared, w) = prepare_all resolver services t.world in
      elim prepared [
        | err e ↦ some (err (spec_failure e), record t { world = w })
        | ok specs ↦ start_specs services specs (record t { world = w })
      ]

  -- An accepted restart of one service: the turn, and its name.
  unfoldable pub restart_one : AppSelector → Turn W → Option (Result Text UsecaseError × Turn W)
  restart_one selector t =
      elim (restart_app ports t.supervisor.table selector t.supervisor.logs_dir t.world) [
        | none ↦ none
        | some (err e, table, w) ↦ some (err e, with_table table (record t { world = w }))
        | some (ok outcome, table, w) ↦
            let (dispatched, name) =
              dispatch_restart outcome (with_table table (record t { world = w })) in
            elim dispatched [
              | none ↦ none
              | some t' ↦ some (ok name, arm_timer ports name (cancel_restart name t'))
            ]
      ]

  -- A service whose declaration cannot be read is skipped, and a failure is logged.
  unfoldable pub restart_each : List Text → Turn W → Option (List Text × Turn W)
  unfolding reload_spec restart_one
  restart_each [] t = some ([], t)
  restart_each (name ∷ names) t =
      let (prepared, w) = resolver.prepare name t.world in
      let asked : Turn W = record t { world = w } in
      let skipped = restart_each names asked in
      elim prepared [
        | err e ↦ skipped
        | ok spec ↦ elim (reload_spec name spec t.supervisor.table) [
          | none ↦ none
          | some table ↦ elim (restart_one (by_name name) (with_table table asked)) [
            | none ↦ none
            | some (err e, t') ↦ restart_each names (arm_timer ports name t')
            | some (ok restarted_name, t') ↦ elim (restart_each names t') [
              | none ↦ none
              | some (rest, t'') ↦ some (restarted_name ∷ rest, t'')
            ]
          ]
        ]
      ]

  unfoldable pub restart_all : Turn W → Option (SupervisionOutcome × Turn W)
  unfolding restart_each
  restart_all t = elim (restart_each (names_in_table_order t.supervisor.table) t) [
    | none ↦ none
    | some (names, t') ↦ some (ok (restarted_all names), t')
  ]

  unfoldable pub restart : AppSelector → Turn W → Option (SupervisionOutcome × Turn W)
  unfolding reload_declaration restart_one restart_all
  restart every t = restart_all t
  restart selector t =
      let (reloaded, w) = reload_declaration resolver selector t.supervisor.table t.world in
      elim reloaded [
        | err e ↦ some (err (spec_failure e), record t { world = w })
        | ok table ↦ elim (restart_one selector (with_table table (record t { world = w }))) [
          | none ↦ none
          | some (err e, t') ↦ some (err (usecase_failure e), t')
          | some (ok name, t') ↦ some (ok (restarted name), t')
        ]
      ]
