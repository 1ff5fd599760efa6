-- ===== src/Usecases/Supervise/Coherent.antt =====
-- What is left of a service's record when its process has exited.
use pm.Base.{ℕ, true, false, ◌≡◌, arith}
use pm.Entities.Runtime.{mark_exited, count_restart, take_restart_request}
use pm.Entities.Status.{is_settled}
use pm.Usecases.Ports.{ExitOutcome}
use pm.Usecases.Record.{ProcessRecord}
use pm.Usecases.Table.Invariant.{IsCoherent}
use pm.Usecases.Supervise.{classify_record}

-- Whatever state its record is in, a service whose process has exited is settled afterwards, with
-- no process id, start or identity and no restart request left.
pub classify_record-settles :
    (r : ProcessRecord) (outcome : ExitOutcome) (now : ℕ)
    → let runtime = (classify_record r outcome now).0.runtime in
      (is_settled runtime.status ≡ true) × IsCoherent runtime × (runtime.pending_restart ≡ false)
unfolding classify_record mark_exited count_restart take_restart_request
classify_record-settles r outcome now = ground arith
