-- ===== src/Usecases/Ports.antt =====
-- usecases/src/ports and the error type of usecases/src/lib.rs. The ports are what the use cases
-- ask of the outside: each acts on a world `W`, of which nothing is assumed.
use pm.Base.{ℕ, Bool, true, false, not, Option, none, some, List, Text, ℤ, pos, int_eq, Result}
use pm.Entities.Depgraph.{DependencyError}
use pm.Entities.Policy.{SandboxPolicy, PolicyError}
use pm.Entities.Priority.{Priority}
use pm.Entities.Ready.{ReadyProbe}
use pm.Entities.Signal.{SignalNameError}
use pm.Entities.SpecError.{SpecError}
use pm.Entities.Spec.{AppSpec}
use pm.Usecases.Record.{ProcessRecord, ResourceSample}

pub record LaunchSpec : Type 0 where
  pub name : Text
  pub program : Text
  pub args : List Text
  pub cwd : Text
  pub env : List (Text × Text)
  pub stdout_path : Text
  pub stderr_path : Text
  pub self_responsible : Bool
  pub priority : Priority

pub data ExitOutcome : Type 0 where
  code : ℤ → ExitOutcome
  signalled unobserved : ExitOutcome

unfoldable pub failed : ExitOutcome → Bool
failed (code c) = not (int_eq c (pos 0))
failed signalled = true
failed unobserved = false

unfoldable pub is_success_code : ExitOutcome → Bool
is_success_code (code c) = int_eq c (pos 0)
is_success_code _ = false

pub data LaunchError : Type 0 where
  spawn_failed : (app reason : Text) → LaunchError
  log_file_failed : (app path reason : Text) → LaunchError

pub data SignalScope : Type 0 where
  process_group single_pid : SignalScope

unfoldable pub reaches_the_group : SignalScope → Bool
reaches_the_group process_group = true
reaches_the_group single_pid = false

pub data SignalError : Type 0 where
  delivery : (pid : ℕ) (reason : Text) → SignalError

pub data DumpError : Type 0 where
  read_failed write_failed unreadable_state : (path reason : Text) → DumpError

pub record StrandedProcess : Type 0 where
  pub name : Text
  pub pid : Option ℕ
  pub token : Option Text

pub record DumpContents : Type 0 where
  pub records : List ProcessRecord
  pub stranded : List StrandedProcess
  pub boot : Option Text

pub data SandboxError : Type 0 where
  no_backend : (app : Text) → SandboxError

pub data FingerprintError : Type 0 where
  digest_failed : (path reason : Text) → FingerprintError

pub data SpecResolveError : Type 0 where
  missing unusable : (name reason : Text) → SpecResolveError

pub data LogRotateError : Type 0 where
  scan_failed : (path reason : Text) → LogRotateError

pub record RotatedLog : Type 0 where
  pub path : Text
  pub bytes : ℕ

pub record WrappedCommand : Type 0 where
  pub program : Text
  pub args : List Text

pub data Liveness : Type 0 where
  alive : Text → Liveness
  gone unreadable : Liveness

unfoldable pub into_token : Liveness → Option Text
into_token (alive token) = some token
into_token gone = none
into_token unreadable = none

pub data Readiness : Type 0 where
  ready pending : Readiness
  readiness_failed : Text → Readiness

pub data UsecaseError : Type 0 where
  spec_error : SpecError → UsecaseError
  dependency_error : DependencyError → UsecaseError
  policy_error : PolicyError → UsecaseError
  launch_error : LaunchError → UsecaseError
  signal_error : SignalError → UsecaseError
  invalid_signal : SignalNameError → UsecaseError
  sandbox_failure : SandboxError → UsecaseError
  dump_error : DumpError → UsecaseError
  fingerprint_error : FingerprintError → UsecaseError
  not_found : Text → UsecaseError
  not_running : Text → UsecaseError
  still_depended_on : (name : Text) (dependents : List Text) → UsecaseError

unfoldable pub blocks_takeover : UsecaseError → Bool
blocks_takeover (dump_error (unreadable_state path reason)) = true
blocks_takeover _ = false

pub record Ports (W : Type 0) : Type 0 where
  pub spawn : LaunchSpec → W → Result ℕ LaunchError × W
  pub adopt : ℕ → W → W
  pub tracked_pids : W → List ℕ × W
  pub terminate : ℕ → SignalScope → W → Result (Unit {0}) SignalError × W
  pub force_kill : ℕ → SignalScope → W → Result (Unit {0}) SignalError × W
  pub deliver : Text → ℕ → SignalScope → W → Result (Unit {0}) SignalError × W
  pub wrap : Text → SandboxPolicy → Text → List Text → Result WrappedCommand SandboxError
  pub load : W → Result DumpContents DumpError × W
  pub save : List ProcessRecord → Option Text → W → Result (Unit {0}) DumpError × W
  pub now_ms : W → ℕ × W
  pub identity : ℕ → W → Liveness × W
  pub identities : List ℕ → W → List (ℕ × Liveness) × W
  pub wait_gone : ℕ → (timeout_ms : ℕ) → W → Liveness × W
  pub wait_group_gone : ℕ → (timeout_ms : ℕ) → W → Bool × W
  pub resident_memory : List ℕ → W → List (ℕ × ℕ) × W
  pub resource_usage : List ℕ → W → List (ℕ × ResourceSample) × W
  pub digest : Text → Text
  pub file_digest : Text → W → Result Text FingerprintError × W
  pub next_fire_ms : Text → Text → ℕ → W → Option ℕ × W
  pub check_ready : ReadyProbe → W → Readiness × W
  pub rotate_logs :
      (logs_dir : Text) → (max_bytes : ℕ) → W → Result (List RotatedLog) LogRotateError × W

-- `SpecResolver`, which reads the declaration of a service anew.
pub record SpecResolver (W : Type 0) : Type 0 where
  pub prepare : Text → W → Result AppSpec SpecResolveError × W
