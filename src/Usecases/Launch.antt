-- ===== src/Usecases/Launch.antt =====
-- The part of usecases/src/start.rs that launches one service. `none` is an internal error of the
-- source: a name that the table lacks.
use pm.Base.{
  ℕ, Bool, true, false, Option, none, some, List, map, Text, Result, ok, err, ◌&&◌, if◌then◌else◌,
}
use pm.Entities.Env.{EnvValue, pair}
use pm.Entities.Runtime.{
  ProcessIdentity, arm_schedule, request_restart, mark_launched, mark_online, record_identity,
}
use pm.Entities.Spec.{AppSpec, is_scheduled_task}
use pm.Entities.Status.{is_settled, is_shutting_down}
use pm.Usecases.Fingerprint.{render_identity}
use pm.Usecases.LogPaths.{log_paths}
use pm.Usecases.Ports.{Ports, LaunchSpec, into_token, UsecaseError, launch_error, sandbox_failure}
use pm.Usecases.Record.{ProcessRecord, has_probe}
use pm.Usecases.Table.{ProcessTable, has_name, find_by_name, write_record}

pub data StartMode : Type 0 where
  register fire : StartMode

pub data StartKind : Type 0 where
  spawned already_running adopted scheduled deferred : StartKind

pub record StartOutcome : Type 0 where
  pub pm_id : ℕ
  pub name : Text
  pub pid : Option ℕ
  pub kind : StartKind

abbrev pub needs_watching : StartKind → Bool
needs_watching spawned = true
needs_watching adopted = true
needs_watching _ = false

abbrev is_register : StartMode → Bool
is_register register = true
is_register fire = false

abbrev pub outcome_of : ProcessRecord → Text → Option ℕ → StartKind → StartOutcome
outcome_of r name pid kind = record { pm_id = r.runtime.pm_id; name = name; pid = pid; kind = kind }

unfoldable pub launch_environment : List EnvValue → List (Text × Text)
launch_environment env = map pair env

module _ {W : Type 0} (ports : Ports W) where
  unfoldable pub capture_identity : AppSpec → ℕ → W → Option ProcessIdentity × W
  capture_identity spec pid w =
      let (observed, w') = ports.identity pid w in
      elim (into_token observed) [
        | none ↦ (none, w')
        | some token ↦
            let (digested, w'') = ports.file_digest spec.script w' in
            (
              (elim digested [
                | err e ↦ none
                | ok binary ↦ some (record {
                  token = token;
                  launch_digest = ports.digest (render_identity spec);
                  binary_digest = binary;
                })
              ]),
              w'',
            )
      ]

  unfoldable pub build_launch_spec : AppSpec → Text → Result LaunchSpec UsecaseError
  unfolding launch_environment
  build_launch_spec spec logs_dir = elim (ports.wrap spec.name spec.sandbox spec.script spec.args) [
    | err e ↦ err (sandbox_failure e)
    | ok wrapped ↦ ok (record {
      name = spec.name;
      program = wrapped.program;
      args = wrapped.args;
      cwd = spec.cwd;
      env = launch_environment spec.env;
      stdout_path = (log_paths logs_dir spec.name).stdout;
      stderr_path = (log_paths logs_dir spec.name).stderr;
      self_responsible = spec.self_responsible;
      priority = spec.priority;
    })
  ]

  -- The record of a service whose process has been spawned.
  abbrev launched : ProcessRecord → ℕ → ℕ → Option ProcessIdentity → ProcessRecord
  launched r pid now identity =
      let started = mark_launched pid now (arm_schedule r.runtime) in
      record r {
        runtime =
            record_identity identity
              (if has_probe r.spec.ready_probe then started else mark_online started);
      }

  -- The part of `launch` that spawns.
  unfoldable pub spawn_record :
      ProcessRecord → Text → Text → W → Result StartOutcome UsecaseError × ProcessRecord × W
  unfolding build_launch_spec capture_identity
  spawn_record r name logs_dir w = elim (build_launch_spec r.spec logs_dir) [
    | err e ↦ (err e, r, w)
    | ok spec ↦
        let (spawned_pid, w') = ports.spawn spec w in
        elim spawned_pid [
          | err e ↦ (err (launch_error e), r, w')
          | ok pid ↦
              let (now, w'') = ports.now_ms w' in
              let (identity, w''') = capture_identity r.spec pid w'' in
              (ok (outcome_of r name (some pid) spawned), launched r pid now identity, w''')
        ]
  ]

  -- `launch` on the record of the name.
  unfoldable pub launch_record :
      ProcessRecord
      → Text
      → Text
      → StartMode
      → W
      → Result StartOutcome UsecaseError × ProcessRecord × W
  unfolding spawn_record
  launch_record r name logs_dir mode w =
      let armed : ProcessRecord = record r { runtime = arm_schedule r.runtime } in
      let requested : ProcessRecord = record r {
        runtime = request_restart (arm_schedule r.runtime);
      } in
      if is_settled r.runtime.status
      then if is_register mode && is_scheduled_task r.spec
        then (ok (outcome_of r name none scheduled), armed, w)
        else spawn_record r name logs_dir w
      else (
        ok (outcome_of r name r.runtime.pid already_running),
        (if is_shutting_down r.runtime.status then requested else armed),
        w,
      )

  unfoldable pub launch :
      ProcessTable
      → Text
      → Text
      → StartMode
      → W
      → Option (Result StartOutcome UsecaseError × ProcessTable × W)
  launch table name logs_dir mode w = elim (find_by_name name table) [
    | none ↦ none
    | some r ↦
        let (result, r', w') = launch_record r name logs_dir mode w in
        some (result, write_record (has_name name) r' table, w')
  ]

  unfoldable pub start_one :
      ProcessTable → Text → Text → W → Option (Result StartOutcome UsecaseError × ProcessTable × W)
  unfolding launch
  start_one table name logs_dir w = launch table name logs_dir fire w

  unfoldable pub register_one :
      ProcessTable → Text → Text → W → Option (Result StartOutcome UsecaseError × ProcessTable × W)
  unfolding launch
  register_one table name logs_dir w = launch table name logs_dir register w
