-- ===== src/Entities/Runtime.antt =====
-- entities/src/process/runtime.rs
use pm.Base.{
  ℕ, Bool, true, false, ◌&&◌, Option, none, some, Text, leb, if◌then◌else◌, saturating_add,
  checked_sub, max_u32, Result, ok, err,
}
use pm.Entities.Status.{
  ProcessStatus, launching, online, stopping, stopped, errored, as_str, is_running, is_settled,
  status_eq,
}

pub data RuntimeError : Type 0 where
  running_without_pid : (app status : Text) → RuntimeError

pub record ProcessIdentity : Type 0 where
  pub token : Text
  pub launch_digest : Text
  pub binary_digest : Text

pub record ProcessRuntime : Type 0 where
  pub pm_id : ℕ
  pub name : Text
  pub pid : Option ℕ
  pub status : ProcessStatus
  pub restart_time : ℕ
  pub unstable_restarts : ℕ
  pub created_at_ms : ℕ
  pub started_at_ms : Option ℕ
  pub identity : Option ProcessIdentity
  pub pending_restart : Bool
  pub supervised_restart : Bool
  pub liveness_failures : ℕ
  pub schedule_armed : Bool

unfoldable pub new : ℕ → Text → ℕ → ProcessRuntime
new pm_id name created_at_ms = record {
  pm_id = pm_id;
  name = name;
  pid = none;
  status = stopped;
  restart_time = 0;
  unstable_restarts = 0;
  created_at_ms = created_at_ms;
  started_at_ms = none;
  identity = none;
  pending_restart = false;
  supervised_restart = false;
  liveness_failures = 0;
  schedule_armed = false;
}

unfoldable pub identity_token : ProcessRuntime → Option Text
identity_token r = elim r.identity [ none ↦ none | some identity ↦ some identity.token ]

unfoldable pub live_pid : ProcessRuntime → Option ℕ
live_pid r = if is_settled r.status then none else r.pid

since_start : ProcessRuntime → ℕ → Option ℕ
since_start r now_ms = elim r.started_at_ms [
  | none ↦ none
  | some started ↦ checked_sub now_ms started
]

unfoldable pub uptime_ms : ProcessRuntime → ℕ → Option ℕ
unfolding since_start
uptime_ms r now_ms = if is_running r.status then since_start r now_ms else none

unfoldable pub elapsed_since_launch_ms : ProcessRuntime → ℕ → Option ℕ
unfolding since_start
elapsed_since_launch_ms r now_ms = if is_settled r.status then none else since_start r now_ms

abbrev pub is_none {ℓ} : {A : Type ℓ} → Option A → Bool
is_none none = true
is_none (some a) = false

unfoldable pub validate_consistency : ProcessRuntime → Result (Unit {0}) RuntimeError
validate_consistency r =
    if is_running r.status && is_none r.pid
    then err (running_without_pid r.name (as_str r.status))
    else ok tt

unfoldable pub mark_launched : ℕ → ℕ → ProcessRuntime → ProcessRuntime
mark_launched pid now_ms r = record r {
  status = launching;
  pid = some pid;
  started_at_ms = some now_ms;
  identity = none;
  liveness_failures = 0;
}

unfoldable pub pass_liveness : ProcessRuntime → ProcessRuntime
pass_liveness r = record r { liveness_failures = 0 }

-- The new record, and whether the threshold is reached.
unfoldable pub fail_liveness : ℕ → ProcessRuntime → ProcessRuntime × Bool
fail_liveness threshold r =
    let failures = saturating_add max_u32 r.liveness_failures 1 in
    (record r { liveness_failures = failures }, leb threshold failures)

unfoldable pub record_identity : Option ProcessIdentity → ProcessRuntime → ProcessRuntime
record_identity identity r = record r { identity = identity }

unfoldable pub mark_online : ProcessRuntime → ProcessRuntime
mark_online r = record r { status = online }

unfoldable pub mark_stopping : ProcessRuntime → ProcessRuntime
mark_stopping r = record r { status = stopping }

unfoldable pub mark_exited : ProcessStatus → ProcessRuntime → ProcessRuntime
mark_exited status r = record r {
  status = status;
  pid = none;
  started_at_ms = none;
  identity = none;
}

unfoldable pub count_restart : ℕ → ProcessRuntime → ProcessRuntime
count_restart unstable_restarts r = record r {
  restart_time = saturating_add max_u32 r.restart_time 1;
  unstable_restarts = unstable_restarts;
}

unfoldable pub reset_restarts : ProcessRuntime → ProcessRuntime
reset_restarts r = record r {
  restart_time = 0;
  unstable_restarts = 0;
  status = if status_eq r.status errored then stopped else r.status;
}

unfoldable pub settle_stability : ProcessRuntime → ProcessRuntime
settle_stability r = record r { unstable_restarts = 0 }

unfoldable pub request_restart : ProcessRuntime → ProcessRuntime
request_restart r = record r { pending_restart = true }

unfoldable pub request_supervised_restart : ProcessRuntime → ProcessRuntime
request_supervised_restart r = record r { pending_restart = true; supervised_restart = true }

unfoldable pub cancel_restart : ProcessRuntime → ProcessRuntime
cancel_restart r = record r { pending_restart = false; supervised_restart = false }

unfoldable pub arm_schedule : ProcessRuntime → ProcessRuntime
arm_schedule r = record r { schedule_armed = true }

unfoldable pub disarm_schedule : ProcessRuntime → ProcessRuntime
disarm_schedule r = record r { schedule_armed = false }

unfoldable pub take_restart_request : ProcessRuntime → ProcessRuntime × Bool
unfolding cancel_restart
take_restart_request r = (cancel_restart r, r.pending_restart)

unfoldable pub takes_the_breaker : ProcessRuntime → Bool
takes_the_breaker r = if r.pending_restart then r.supervised_restart else false
