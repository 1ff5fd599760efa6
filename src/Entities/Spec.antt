-- ===== src/Entities/Spec.antt =====
-- entities/src/process/spec.rs
use pm.Base.{
  ℕ, Bool, true, false, not, ◌&&◌, ◌||◌, Option, none, some, List, [], ◌∷◌, Text, codes, text_eq,
  contains_text, trim, is_empty, starts_with, ends_with, parse_unsigned, max_u32, any, find, filter,
  length, is_ascii_digit, is_ascii_alphabetic, ℤ, int_eq, in_range, Result, ok, err, ◌>>◌, map_err,
  ltb, ◌==◌, if◌then◌else◌,
}
use pm.Entities.Depgraph.{DependencyNode}
use pm.Entities.Env.{EnvValue, EnvScope, injected}
use pm.Entities.Policy.{SandboxPolicy, is_unconfined, validate_policy}
use pm.Entities.Priority.{Priority}
use pm.Entities.Ready.{ReadyProbe, validate_probe, validate_liveness_probe}
use pm.Entities.Restart.{RestartPolicy}
use pm.Entities.Roots.{is_absolute_path}
use pm.Entities.SpecError.{
  SpecError, empty_name, numeric_name, dotted_name, reserved_name, encrypted_name,
  reserved_file_name, unsafe_name, empty_script, relative_cwd, self_dependency, invalid_min_uptime,
  invalid_max_restart_delay, invalid_listen_timeout, empty_env_key, empty_schedule,
  invalid_stop_exit_code, confined_self_responsible, sandbox_error,
}

abbrev pub reserved_all_selector : Text
reserved_all_selector = codes "all"

abbrev pub reserved_encrypted_suffix : Text
reserved_encrypted_suffix = codes ".enc"

abbrev pub reserved_file_names : List Text
reserved_file_names = codes "config" ∷ codes "pm3" ∷ []

pub data EnvOrigin : Type 0 where
  plain encrypted sealed : EnvOrigin

unfoldable pub origin_as_str : EnvOrigin → Text
origin_as_str plain = codes "plain"
origin_as_str encrypted = codes "encrypted"
origin_as_str sealed = codes "sealed"

pub record AppSpec : Type 0 where
  pub name : Text
  pub script : Text
  pub args : List Text
  pub cwd : Text
  pub env : List EnvValue
  pub env_origin : EnvOrigin
  pub autorestart : Bool
  pub min_uptime_ms : ℕ
  pub max_restarts : ℕ
  pub restart_delay_ms : ℕ
  pub max_restart_delay_ms : ℕ
  pub schedule : Option Text
  pub depends_on : List Text
  pub max_memory_kib : Option ℕ
  pub ready_probe : Option ReadyProbe
  pub liveness_probe : Option ReadyProbe
  pub listen_timeout_ms : Option ℕ
  pub stop_exit_codes : List ℤ
  pub self_responsible : Bool
  pub priority : Priority
  pub sandbox : SandboxPolicy

unfoldable pub restart_policy : AppSpec → RestartPolicy
restart_policy spec = record {
  autorestart = spec.autorestart;
  min_uptime_ms = spec.min_uptime_ms;
  max_restarts = spec.max_restarts;
  restart_delay_ms = spec.restart_delay_ms;
  max_restart_delay_ms = spec.max_restart_delay_ms;
}

abbrev is_some {ℓ} : {A : Type ℓ} → Option A → Bool
is_some none = false
is_some (some a) = true

unfoldable pub is_scheduled_task : AppSpec → Bool
is_scheduled_task spec = if spec.autorestart then false else is_some spec.schedule

abbrev is_declared : EnvScope → Bool
is_declared injected = false
is_declared _ = true

pub declared_env_count : AppSpec → ℕ
declared_env_count spec = length (filter (λ entry. is_declared entry.scope) spec.env)

unfoldable pub stops_on : AppSpec → ℤ → Bool
stops_on spec code = any (λ c. int_eq c code) spec.stop_exit_codes

unfoldable pub dependency_node : AppSpec → DependencyNode
dependency_node spec = record { name = spec.name; depends_on = spec.depends_on }

unfoldable pub is_name_letter : ℕ → Bool
unfolding is_ascii_digit is_ascii_alphabetic
is_name_letter letter =
    if is_ascii_alphabetic letter || is_ascii_digit letter
    then true
    else letter == b'-' || letter == b'_' || letter == b'.'

unfoldable pub validate_app_name : Text → Result (Unit {0}) SpecError
validate_app_name name =
    if is_empty (trim name)
    then err empty_name
    else if is_some (parse_unsigned max_u32 name)
    then err (numeric_name name)
    else if starts_with (codes ".") name
    then err (dotted_name name)
    else if text_eq name reserved_all_selector
    then err (reserved_name name)
    else if contains_text reserved_file_names name
    then err (reserved_file_name name)
    else if ends_with reserved_encrypted_suffix name
    then err (encrypted_name name)
    else elim (find (λ letter. not (is_name_letter letter)) name) [
      | none ↦ ok tt
      | some character ↦ err (unsafe_name name character)
    ]

abbrev guard : Bool → SpecError → Result (Unit {0}) SpecError
guard true error = err error
guard false error = ok tt

abbrev check_option {ℓ} :
    {A : Type ℓ} → (A → Result (Unit {0}) SpecError) → Option A → Result (Unit {0}) SpecError
check_option check none = ok tt
check_option check (some a) = check a

abbrev is_some_zero : Option ℕ → Bool
is_some_zero none = false
is_some_zero (some n) = n == 0

abbrev is_blank_schedule : Option Text → Bool
is_blank_schedule none = false
is_blank_schedule (some cron) = is_empty (trim cron)

check_exit_codes : AppSpec → Result (Unit {0}) SpecError
check_exit_codes spec = elim (find (λ code. not (in_range 255 code)) spec.stop_exit_codes) [
  | none ↦ ok tt
  | some code ↦ err (invalid_stop_exit_code spec.name code)
]

unfoldable pub validate_spec : AppSpec → Result (Unit {0}) SpecError
unfolding check_exit_codes
validate_spec spec = do
  validate_app_name spec.name
  guard (is_empty (trim spec.script)) (empty_script spec.name)
  guard (not (is_absolute_path spec.cwd)) (relative_cwd spec.name spec.cwd)
  guard (any (λ dep. text_eq dep spec.name) spec.depends_on) (self_dependency spec.name)
  guard (ltb spec.min_uptime_ms 1) (invalid_min_uptime spec.name)
  guard (ltb spec.max_restart_delay_ms 1) (invalid_max_restart_delay spec.name)
  check_option (validate_probe spec.name) spec.ready_probe
  check_option (validate_liveness_probe spec.name) spec.liveness_probe
  guard (is_some_zero spec.listen_timeout_ms) (invalid_listen_timeout spec.name)
  guard (any (λ entry. is_empty (trim entry.key)) spec.env) (empty_env_key spec.name)
  guard (is_blank_schedule spec.schedule) (empty_schedule spec.name)
  check_exit_codes spec
  guard (spec.self_responsible && not (is_unconfined spec.sandbox.mode))
      (confined_self_responsible spec.name)
  map_err (sandbox_error spec.name) (validate_policy spec.sandbox)
