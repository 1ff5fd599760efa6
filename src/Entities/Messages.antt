-- ===== src/Entities/Messages.antt =====
-- The messages that the `#[error]` attributes of entities/src/process and entities/src/sandbox give.
use Prim.Native.String.{String}
use pm.Base.{suc, [], ◌∷◌, ◌++◌, Text, codes, concat, join, print_decimal, ℤ, pos, negsuc}
use pm.Entities.Depgraph.{DependencyError, unknown_dependency, cycle}
use pm.Entities.Policy.{PolicyError}
use pm.Entities.Signal.{SignalNameError, unknown_signal}
use pm.Entities.SpecError.{SpecError}

-- `{}` of an `i32`.
abbrev print_int : ℤ → Text
print_int (pos n) = print_decimal n
print_int (negsuc n) = codes "-" ++ print_decimal (suc n)

unfoldable pub policy_message : PolicyError → Text
unfolding concat
policy_message PolicyError.empty_writable_root = codes "cannot accept empty sandbox writable root"
policy_message (PolicyError.relative_writable_root root) = concat (
    codes "cannot accept relative sandbox writable root '"
    ∷ root
    ∷ codes "': must be an absolute path"
    ∷ [])
policy_message PolicyError.empty_derived_root =
    codes "cannot accept empty derived sandbox root (from cwd, logs_dir or tmp dir)"
policy_message (PolicyError.relative_derived_root root) = concat (
    codes "cannot accept relative derived sandbox root '"
    ∷ root
    ∷ codes "' (from cwd, logs_dir or tmp dir): must be an absolute path"
    ∷ [])
policy_message PolicyError.empty_readable_root = codes "cannot accept empty sandbox readable root"
policy_message (PolicyError.relative_readable_root root) = concat (
    codes "cannot accept relative sandbox readable root '"
    ∷ root
    ∷ codes "': must be an absolute path"
    ∷ [])
policy_message PolicyError.writable_roots_without_write_access =
    codes "cannot accept sandbox writable roots under a mode that denies writes"
policy_message (PolicyError.writable_root_covers_hidden_root root hidden) = concat (
    codes "cannot accept sandbox writable root '"
    ∷ root
    ∷ codes "': it would hand the service '"
    ∷ hidden
    ∷ codes "', which pm3 keeps out of every sandbox"
    ∷ [])
policy_message (PolicyError.forbidden_writable_root root) = concat (
    codes "cannot accept sandbox writable root '"
    ∷ root
    ∷ codes
        "': pm3.sandbox.forbidden_writable_roots refuses it because granting it would leave the sandbox with nothing to enforce"
    ∷ [])

-- A message about one name or one service.
abbrev around : String → Text → String → Text
around before subject after = concat (codes before ∷ subject ∷ codes after ∷ [])

unfoldable pub spec_message : SpecError → Text
unfolding concat policy_message
spec_message (SpecError.exec_liveness_probe app) =
    around "cannot accept an exec liveness probe for app '" app
      "': a repeating probe must not fork, declare a tcp endpoint"
spec_message SpecError.empty_name = codes "cannot accept blank app name"
spec_message (SpecError.numeric_name name) =
    around "cannot accept all-digit app name '" name "': a selector would read it as a process id"
spec_message (SpecError.dotted_name name) =
    around "cannot accept app name '" name
      "' starting with a dot: it would escape the service directory"
spec_message (SpecError.reserved_name name) =
    around "cannot accept app name '" name "': it is reserved as the every-app selector"
spec_message (SpecError.encrypted_name name) =
    around "cannot accept app name '" name
      "' ending in '.enc': its service file would be the encrypted environment of another app"
spec_message (SpecError.reserved_file_name name) =
    around "cannot accept app name '" name
      "': pm3 keeps that file name for its own configuration in the same directory"
spec_message (SpecError.unsafe_name name character) = concat (
    codes "cannot accept app name '"
    ∷ name
    ∷ codes "': '"
    ∷ (character ∷ [])
    ∷ codes "' is not allowed, use letters, digits, '-', '_' or '.'"
    ∷ [])
spec_message (SpecError.empty_script app) = around "cannot accept blank script for app '" app "'"
spec_message (SpecError.relative_cwd app cwd) = concat (
    codes "cannot accept relative cwd '"
    ∷ cwd
    ∷ codes "' for app '"
    ∷ app
    ∷ codes "': must be an absolute path"
    ∷ [])
spec_message (SpecError.self_dependency app) =
    around "cannot accept app '" app "' depending on itself"
spec_message (SpecError.invalid_min_uptime app) =
    around "cannot accept min_uptime_ms 0 for app '" app "': must be >= 1"
spec_message (SpecError.invalid_max_restart_delay app) =
    around "cannot accept max_restart_delay_ms 0 for app '" app "': must be >= 1"
spec_message (SpecError.empty_ready_probe app) =
    around "cannot accept a ready probe with a blank command for app '" app "'"
spec_message (SpecError.invalid_ready_endpoint app endpoint) = concat (
    codes "cannot accept ready probe endpoint '"
    ∷ endpoint
    ∷ codes "' for app '"
    ∷ app
    ∷ codes "': use host:port with a port of 1-65535"
    ∷ [])
spec_message (SpecError.invalid_listen_timeout app) =
    around "cannot accept listen_timeout_ms 0 for app '" app "': must be >= 1"
spec_message (SpecError.empty_env_key app) =
    around "cannot accept blank environment variable name for app '" app "'"
spec_message (SpecError.empty_schedule app) =
    around "cannot accept blank schedule for app '" app "'"
spec_message (SpecError.invalid_stop_exit_code app code) = concat (
    codes "cannot accept stop_exit_code "
    ∷ print_int code
    ∷ codes " for app '"
    ∷ app
    ∷ codes "': use a code of 0-255"
    ∷ [])
spec_message (SpecError.confined_self_responsible app) =
    around "cannot make app '" app
      "' self-responsible: only a danger-full-access app is launched directly, set sandbox mode to danger-full-access"
spec_message (SpecError.sandbox_error app source) = concat (
    codes "cannot accept sandbox policy for app '" ∷ app ∷ codes "': " ∷ policy_message source ∷ [])

unfoldable pub dependency_message : DependencyError → Text
unfolding concat
dependency_message (unknown_dependency app dependency) = concat (
    codes "cannot resolve dependency '"
    ∷ dependency
    ∷ codes "' declared by app '"
    ∷ app
    ∷ codes "': no such app"
    ∷ [])
dependency_message (cycle involved) =
    codes "cannot order apps: dependency cycle involves " ++ join (codes ", ") involved

unfoldable pub signal_message : SignalNameError → Text
signal_message (unknown_signal raw) =
    around "unknown signal '" raw "'; valid signals: TERM, INT, QUIT, HUP, USR1, USR2"
