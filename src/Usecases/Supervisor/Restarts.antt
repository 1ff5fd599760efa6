-- ===== src/Usecases/Supervisor/Restarts.antt =====
-- supervisor.rs: a restart of a service that has a record keeps the state healthy, also one that the
-- supervisor blames on the service.
use pm.Base.{Option, none, some, List, Memᴰ, Text, ok, err, Option-cases, inl, inr, arith}
use pm.Entities.Runtime.{request_supervised_restart}
use pm.Usecases.Alert.{AlertKind, launch_failed}
use pm.Usecases.Lifecycle.Records.{Keeps}
use pm.Usecases.Ports.{Ports}
use pm.Usecases.Query.{hand_to_the_breaker}
use pm.Usecases.Record.{ProcessRecord}
use pm.Usecases.Restart.{restart_app}
use pm.Usecases.Selector.{name as by_name}
use pm.Usecases.Supervisor.{Turn, and_then, with_table, fire_alert}
use pm.Usecases.Supervisor.Events.{blame_the_service}
use pm.Usecases.Supervisor.Healthy.{known-found, write-IsHealthy}
use pm.Usecases.Supervisor.Launching.{dispatch_restart, restart_now}
use pm.Usecases.Supervisor.Recovers.{
  Healthy, Succeeds, Same-Healthy, dispatch_restart-Succeeds, cancel_restart-Same, arm_timer-Same,
  fire_alert-Same, NamedIn,
}
use pm.Usecases.Supervisor.Relaunch.{Leaves, restart_app-Leaves}
use pm.Usecases.Supervisor.Timers.{cancel_restart, arm_timer}

hand_to_the_breaker-Keeps : (r : ProcessRecord) → Keeps r (hand_to_the_breaker r)
unfolding hand_to_the_breaker request_supervised_restart
hand_to_the_breaker-Keeps r = ground arith

module _ {W : Type 0} where
  pub and_then-Succeeds :
      {ns : List Text} (o : Option (Turn W)) (f : Turn W → Option (Turn W))
      → Succeeds ns o
      → ((t : Turn W) → Healthy ns t → Succeeds ns (f t))
      → Succeeds ns (and_then o f)
  and_then-Succeeds none f h g = absurd h
  and_then-Succeeds (some t) f h g = g t h

module _ {W : Type 0} (ports : Ports W) {ns : List Text} where
  pub arm_timer-Healthy :
      (name : Text) (t : Turn W) → Healthy ns t → Healthy ns (arm_timer ports name t)
  arm_timer-Healthy name t h =
      Same-Healthy t (arm_timer ports name t) (arm_timer-Same ports name t) h

  pub fire_alert-Healthy :
      (name : Text) (kind : AlertKind) (t : Turn W)
      → Healthy ns t
      → Healthy ns (fire_alert ports name kind t)
  fire_alert-Healthy name kind t h =
      Same-Healthy t (fire_alert ports name kind t) (fire_alert-Same ports name kind t) h

  pub restart_now-Succeeds :
      (name : Text) (t : Turn W) → Healthy ns t → Succeeds ns (restart_now ports name t)
  unfolding restart_now
  restart_now-Succeeds name t h =
      let cancelled = cancel_restart name t in
      let hc : Healthy ns cancelled = Same-Healthy t cancelled (cancel_restart-Same name t) h in
      let s = cancelled.supervisor in
      let l = restart_app-Leaves ports s.table name s.logs_dir cancelled.world hc in
      elim (Option-cases (restart_app ports s.table (by_name name) s.logs_dir cancelled.world)) [
        | inl e ↦ absurd (rw e at l)
        | inr ((err x, table, w), e) ↦
            let l' : Leaves ns s.waiters (NamedIn ns) (some (err x, table, w)) = rw e at l in
            let left : Turn W = with_table table (record cancelled { world = w }) in
            rw (e, restart_now)
              (arm_timer-Healthy name (fire_alert ports name launch_failed left)
                (fire_alert-Healthy name launch_failed left l'.1))
        | inr ((ok outcome, table, w), e) ↦
            let l' : Leaves ns s.waiters (NamedIn ns) (some (ok outcome, table, w)) = rw e at l in
            let left : Turn W = with_table table (record cancelled { world = w }) in
            let (dispatched, restarted) = dispatch_restart outcome left in
            rw (e, restart_now)
              (and_then-Succeeds dispatched (λ t'. some (arm_timer ports restarted t'))
                (dispatch_restart-Succeeds outcome left l'.1 l'.0)
                (λ t' h'. arm_timer-Healthy restarted t' h'))
      ]

  pub blame_the_service-Succeeds :
      (name : Text) (t : Turn W)
      → Healthy ns t
      → Memᴰ name ns
      → Succeeds ns (blame_the_service ports name t)
  unfolding blame_the_service
  blame_the_service-Succeeds name t h m =
      let restarted = restart_now-Succeeds name t h in
      elim (Option-cases (restart_now ports name t)) [
        | inl e ↦ absurd (rw e at restarted)
        | inr (t', e) ↦
            let h' : Healthy ns t' = rw e at restarted in
            let (r, found) = known-found h' m in
            rw (e, blame_the_service)
              (rw found (
                write-IsHealthy name r (hand_to_the_breaker r) h' found
                  (hand_to_the_breaker-Keeps r)))
      ]
