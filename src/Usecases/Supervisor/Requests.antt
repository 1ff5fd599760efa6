-- ===== src/Usecases/Supervisor/Requests.antt =====
-- `handle` of usecases/src/supervisor.rs, which answers a request.
use pm.Base.{Option, some, [], List, map, filter_map, Text, ok, err, ◌∷◌, ℕ}
use pm.Usecases.Ports.{Ports, SpecResolver}
use pm.Usecases.Query.{list_apps, describe_app}
use pm.Usecases.Record.{ProcessView, with_sample}
use pm.Usecases.Selector.{AppSelector}
use pm.Usecases.Supervision.{
  SupervisionRequest, SupervisionOutcome, usecase_failure, listed, described,
}
use pm.Usecases.Supervisor.{Supervisor, Turn, with_next_fire}
use pm.Usecases.Supervisor.Batches.{start, restart}
use pm.Usecases.Supervisor.Handlers.{stop, stop_all, delete, reset, signal}

abbrev pids_in : List ProcessView → List ℕ
pids_in views = filter_map (λ v. v.pid) views

module _ {W : Type 0} (ports : Ports W) (resolver : SpecResolver W)
    (to_uppercase : Text → Text) where
  unfoldable pub list_views : Turn W → SupervisionOutcome × Turn W
  list_views t =
      let (now, w) = ports.now_ms t.world in
      let views = map (with_next_fire t.supervisor) (list_apps t.supervisor.table now) in
      let (samples, w') = ports.resource_usage (pids_in views) w in
      (ok (listed (map (λ v. with_sample v samples) views)), record t { world = w' })

  unfoldable pub describe_view : AppSelector → Turn W → SupervisionOutcome × Turn W
  describe_view selector t =
      let (now, w) = ports.now_ms t.world in
      elim (describe_app t.supervisor.table selector now) [
        | err e ↦ (err (usecase_failure e), record t { world = w })
        | ok found ↦
            let v = with_next_fire t.supervisor found in
            let (samples, w') = ports.resource_usage (pids_in (v ∷ [])) w in
            (ok (described (with_sample v samples)), record t { world = w' })
      ]

  -- The outcome, and the turn that starts without effects.
  unfoldable pub handle : SupervisionRequest → Supervisor → W → Option (SupervisionOutcome × Turn W)
  unfolding list_views describe_view
  handle request s w = answer request (record { supervisor = s; effects = []; world = w })
    where
      answer : SupervisionRequest → Turn W → Option (SupervisionOutcome × Turn W)
      answer (SupervisionRequest.start services) t = start ports resolver services t
      answer SupervisionRequest.list t = some (list_views t)
      answer (SupervisionRequest.describe selector) t = some (describe_view selector t)
      answer (SupervisionRequest.stop selector) t = stop ports selector t
      answer (SupervisionRequest.restart selector) t = restart ports resolver selector t
      answer (SupervisionRequest.delete selector) t = delete ports selector t
      answer (SupervisionRequest.reset selector) t = some (reset ports selector t)
      answer (SupervisionRequest.signal selector name) t =
          some (signal ports to_uppercase selector name t)
      answer SupervisionRequest.stop_all t = stop_all ports t
