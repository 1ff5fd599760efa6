-- ===== src/Usecases/Messages.antt =====
-- The messages that the `#[error]` attributes of usecases/src/lib.rs, ports and supervision.rs give.
use pm.Base.{[], ◌∷◌, Text, codes, concat, join, print_decimal}
use pm.Entities.Messages.{spec_message, dependency_message, policy_message, signal_message}
use pm.Usecases.Ports.{
  LaunchError, spawn_failed, log_file_failed, SignalError, delivery, DumpError, SandboxError,
  no_backend, FingerprintError, digest_failed, SpecResolveError, missing, unusable, LogRotateError,
  scan_failed, UsecaseError,
}

unfoldable pub launch_message : LaunchError → Text
unfolding concat
launch_message (spawn_failed app reason) =
    concat (codes "cannot spawn app '" ∷ app ∷ codes "': " ∷ reason ∷ [])
launch_message (log_file_failed app path reason) =
    concat (
      codes "cannot open log file '" ∷ path ∷ codes "' for app '" ∷ app ∷ codes "': " ∷ reason ∷ [])

unfoldable pub delivery_message : SignalError → Text
unfolding concat
delivery_message (delivery pid reason) =
    concat (codes "cannot signal pid " ∷ print_decimal pid ∷ codes ": " ∷ reason ∷ [])

unfoldable pub dump_message : DumpError → Text
unfolding concat
dump_message (DumpError.read_failed path reason) =
    concat (codes "cannot read state file '" ∷ path ∷ codes "': " ∷ reason ∷ [])
dump_message (DumpError.write_failed path reason) =
    concat (codes "cannot write state file '" ∷ path ∷ codes "': " ∷ reason ∷ [])
dump_message (DumpError.unreadable_state path reason) =
    concat (codes "cannot rebuild the apps saved in '" ∷ path ∷ codes "': " ∷ reason ∷ [])

unfoldable pub sandbox_message : SandboxError → Text
unfolding concat
sandbox_message (no_backend app) = concat (
    codes "cannot confine app '"
    ∷ app
    ∷ codes
        "': no usable sandbox backend on this platform, install bubblewrap or set sandbox mode to danger-full-access"
    ∷ [])

unfoldable pub digest_message : FingerprintError → Text
unfolding concat
digest_message (digest_failed path reason) =
    concat (codes "cannot digest '" ∷ path ∷ codes "': " ∷ reason ∷ [])

unfoldable pub resolve_message : SpecResolveError → Text
resolve_message (missing name reason) = reason
resolve_message (unusable name reason) = reason

unfoldable pub rotate_message : LogRotateError → Text
unfolding concat
rotate_message (scan_failed path reason) =
    concat (codes "cannot scan the log directory '" ∷ path ∷ codes "': " ∷ reason ∷ [])

unfoldable pub error_message : UsecaseError → Text
unfolding concat launch_message delivery_message dump_message sandbox_message digest_message
error_message (UsecaseError.spec_error e) = spec_message e
error_message (UsecaseError.dependency_error e) = dependency_message e
error_message (UsecaseError.policy_error e) = policy_message e
error_message (UsecaseError.launch_error e) = launch_message e
error_message (UsecaseError.signal_error e) = delivery_message e
error_message (UsecaseError.invalid_signal e) = signal_message e
error_message (UsecaseError.sandbox_failure e) = sandbox_message e
error_message (UsecaseError.dump_error e) = dump_message e
error_message (UsecaseError.fingerprint_error e) = digest_message e
error_message (UsecaseError.not_found name) =
    concat (codes "cannot find app '" ∷ name ∷ codes "'" ∷ [])
error_message (UsecaseError.not_running name) =
    concat (codes "cannot signal '" ∷ name ∷ codes "': it is not running" ∷ [])
error_message (UsecaseError.still_depended_on name dependents) = concat (
    codes "cannot delete app '"
    ∷ name
    ∷ codes "': "
    ∷ join (codes ", ") dependents
    ∷ codes " still depends on it"
    ∷ [])
