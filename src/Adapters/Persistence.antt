-- ===== src/Adapters/Persistence.antt =====
-- adapters/src/persistence/dto.rs: the records as the state file stores them, and back.
mod Examples
pub mod RoundTrip
pub mod Store
use pm.Base.{ℕ, Bool, Option, none, some, List, map, Text, Result, ok, err, map_err}
use pm.Entities.Runtime.{ProcessIdentity, ProcessRuntime, RuntimeError, validate_consistency}
use pm.Entities.Status.{ProcessStatus}
use pm.Entities.Status.{as_str as status_as_str, parse as parse_status}
use pm.Usecases.Record.{ProcessRecord}

pub record IdentityDto : Type 0 where
  pub token : Text
  pub launch_digest : Text
  pub binary_digest : Text

pub record RuntimeDto : Type 0 where
  pub pm_id : ℕ
  pub status : Text
  pub restart_time : ℕ
  pub unstable_restarts : ℕ
  pub created_at_ms : ℕ
  pub pid : Option ℕ
  pub started_at_ms : Option ℕ
  pub identity : Option IdentityDto
  pub pending_restart : Bool
  pub supervised_restart : Bool
  pub liveness_failures : ℕ
  pub schedule_armed : Bool

pub record StateDto : Type 0 where
  pub name : Text
  pub runtime : RuntimeDto

pub record DumpDocument : Type 0 where
  pub services : List StateDto
  pub boot : Option Text

pub data DecodeError : Type 0 where
  unknown_status : (app status : Text) → DecodeError
  inconsistent_state : (app : Text) (source : RuntimeError) → DecodeError

unfoldable pub decode_identity : IdentityDto → ProcessIdentity
decode_identity dto = record {
  token = dto.token;
  launch_digest = dto.launch_digest;
  binary_digest = dto.binary_digest;
}

unfoldable pub encode_identity : ProcessIdentity → IdentityDto
encode_identity identity = record {
  token = identity.token;
  launch_digest = identity.launch_digest;
  binary_digest = identity.binary_digest;
}

unfoldable pub encode_optional_identity : Option ProcessIdentity → Option IdentityDto
unfolding encode_identity
encode_optional_identity none = none
encode_optional_identity (some identity) = some (encode_identity identity)

unfoldable pub decode_optional_identity : Option IdentityDto → Option ProcessIdentity
unfolding decode_identity
decode_optional_identity none = none
decode_optional_identity (some dto) = some (decode_identity dto)

unfoldable pub encode_runtime : ProcessRuntime → RuntimeDto
unfolding encode_optional_identity
encode_runtime r = record {
  pm_id = r.pm_id;
  status = status_as_str r.status;
  restart_time = r.restart_time;
  unstable_restarts = r.unstable_restarts;
  created_at_ms = r.created_at_ms;
  pid = r.pid;
  started_at_ms = r.started_at_ms;
  identity = encode_optional_identity r.identity;
  pending_restart = r.pending_restart;
  supervised_restart = r.supervised_restart;
  liveness_failures = r.liveness_failures;
  schedule_armed = r.schedule_armed;
}

unfoldable pub encode_state : ProcessRecord → StateDto
unfolding encode_runtime
encode_state r = record { name = r.runtime.name; runtime = encode_runtime r.runtime }

unfoldable pub encode_states : List ProcessRecord → Option Text → DumpDocument
unfolding encode_state
encode_states records boot = record { services = map encode_state records; boot = boot }

-- The runtime state of a stored one, with the status that was parsed.
unfoldable pub decoded : ProcessStatus → StateDto → ProcessRuntime
unfolding decode_optional_identity
decoded status dto = record {
  pm_id = dto.runtime.pm_id;
  name = dto.name;
  pid = dto.runtime.pid;
  status = status;
  restart_time = dto.runtime.restart_time;
  unstable_restarts = dto.runtime.unstable_restarts;
  created_at_ms = dto.runtime.created_at_ms;
  started_at_ms = dto.runtime.started_at_ms;
  identity = decode_optional_identity dto.runtime.identity;
  pending_restart = dto.runtime.pending_restart;
  supervised_restart = dto.runtime.supervised_restart;
  liveness_failures = dto.runtime.liveness_failures;
  schedule_armed = dto.runtime.schedule_armed;
}

unfoldable pub checked : ProcessRuntime → Result ProcessRuntime DecodeError
checked r = elim (validate_consistency r) [
  | ok _ ↦ ok r
  | err source ↦ err (inconsistent_state r.name source)
]

unfoldable pub decode_state : StateDto → Result ProcessRuntime DecodeError
unfolding decoded checked
decode_state dto = elim (parse_status dto.runtime.status) [
  | none ↦ err (unknown_status dto.name dto.runtime.status)
  | some status ↦ checked (decoded status dto)
]
