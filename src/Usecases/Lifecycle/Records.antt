-- ===== src/Usecases/Lifecycle/Records.antt =====
-- Each operation on one record keeps its id and its name, and leaves it sound if it was.
use pm.Base.{ℕ, ◌≡◌, refl, ◌∙◌, Text, arith}
use pm.Entities.Runtime.{
  live_pid, mark_exited, mark_stopping, disarm_schedule, cancel_restart, reset_restarts,
  arm_schedule, request_restart, mark_launched, mark_online, record_identity, count_restart,
  take_restart_request,
}
use pm.Entities.Status.{errored}
use pm.Usecases.Launch.{StartMode, launch_record}
use pm.Usecases.Ports.{Ports, ExitOutcome}
use pm.Usecases.Record.{ProcessRecord}
use pm.Usecases.Stop.{request_stop, stop_one, quiesce}
use pm.Usecases.Supervise.{classify_record}
use pm.Usecases.Table.Invariant.{IsSound}

abbrev pub Keeps : ProcessRecord → ProcessRecord → Type 0
Keeps r r' =
    (r'.runtime.pm_id ≡ r.runtime.pm_id)
    × (r'.runtime.name ≡ r.runtime.name)
    × (IsSound r → IsSound r')

pub quiesce-Keeps : (r : ProcessRecord) → Keeps r (quiesce r)
unfolding disarm_schedule cancel_restart
quiesce-Keeps r = (refl, refl, λ s. ground arith)

pub mark_errored-Keeps :
    (r : ProcessRecord) → Keeps r (record r { runtime = mark_exited errored r.runtime })
unfolding mark_exited
mark_errored-Keeps r = (refl, refl, λ s. ground arith)

pub reset-Keeps : (r : ProcessRecord) → Keeps r (record r { runtime = reset_restarts r.runtime })
unfolding reset_restarts
reset-Keeps r = (refl, refl, λ s. ground arith)

pub request_restart-Keeps :
    (r : ProcessRecord) → Keeps r (record r { runtime = request_restart r.runtime })
unfolding request_restart
request_restart-Keeps r = (refl, refl, λ s. ground arith)

pub classify_record-Keeps :
    (r : ProcessRecord) (outcome : ExitOutcome) (now : ℕ)
    → Keeps r (classify_record r outcome now).0
unfolding classify_record mark_exited count_restart take_restart_request
classify_record-Keeps r outcome now = ground arith

pub Keeps-trans : (a b c : ProcessRecord) → Keeps a b → Keeps b c → Keeps a c
Keeps-trans a b c h k = (k.0 ∙ h.0, k.1 ∙ h.1, λ s. k.2 (h.2 s))

module _ {W : Type 0} (ports : Ports W) where
  pub request_stop-Keeps : (r : ProcessRecord) (w : W) → Keeps r (request_stop ports r w).1
  unfolding request_stop live_pid mark_exited mark_stopping
  request_stop-Keeps r w = ground arith

  pub stop_one-Keeps : (r : ProcessRecord) (w : W) → Keeps r (stop_one ports r w).1
  unfolding stop_one request_stop live_pid mark_exited mark_stopping disarm_schedule cancel_restart
  stop_one-Keeps r w = ground arith

  pub launch_record-Keeps :
      (r : ProcessRecord) (name logs_dir : Text) (mode : StartMode) (w : W)
      → Keeps r (launch_record ports r name logs_dir mode w).1
  unfolding launch_record arm_schedule request_restart mark_launched mark_online record_identity
  launch_record-Keeps r name logs_dir mode w = ground arith
