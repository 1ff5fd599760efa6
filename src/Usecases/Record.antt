-- ===== src/Usecases/Record.antt =====
-- usecases/src/record.rs
use pm.Base.{
  ℕ, Bool, true, false, ◌&&◌, Option, none, some, List, [], ◌∷◌, map, Text, ◌==◌, if◌then◌else◌,
}
use pm.Entities.Env.{EnvScope, EnvValue}
use pm.Entities.Policy.{mode_as_str, read_as_str, granted_roots}
use pm.Entities.Runtime.{ProcessRuntime, uptime_ms}
use pm.Entities.Secret.{mask_secret}
use pm.Entities.Spec.{AppSpec, EnvOrigin, declared_env_count}
use pm.Entities.Status.{ProcessStatus, launching, status_eq}

pub record ProcessRecord : Type 0 where
  pub spec : AppSpec
  pub runtime : ProcessRuntime

pub record EnvDisplay : Type 0 where
  pub key : Text
  pub value : Text
  pub scope : EnvScope

pub record ResourceSample : Type 0 where
  pub rss_kib : ℕ
  pub cpu_tenths : ℕ

pub record ProcessView : Type 0 where
  pub pm_id : ℕ
  pub name : Text
  pub pid : Option ℕ
  pub status : ProcessStatus
  pub restart_time : ℕ
  pub unstable_restarts : ℕ
  pub max_restarts : ℕ
  pub autorestart : Bool
  pub uptime_ms : Option ℕ
  pub next_fire_ms : Option ℕ
  pub schedule : Option Text
  pub sandbox_mode : Text
  pub sandbox_read : Text
  pub sandbox_network : Bool
  pub env_origin : EnvOrigin
  pub env_declared : ℕ
  pub env : List EnvDisplay
  pub script : Text
  pub args : List Text
  pub cwd : Text
  pub depends_on : List Text
  pub writable_roots : List Text
  pub rss_kib : Option ℕ
  pub cpu_tenths : Option ℕ

-- `samples.get(&pid)` on a map given by its entries.
sample_of : ℕ → List (ℕ × ResourceSample) → Option ResourceSample
sample_of pid [] = none
sample_of pid ((key, sample) ∷ rest) = if key == pid then some sample else sample_of pid rest

apply_sample : ProcessView → Option ResourceSample → ProcessView
apply_sample v none = v
apply_sample v (some s) = record v { rss_kib = some s.rss_kib; cpu_tenths = some s.cpu_tenths }

unfoldable pub with_sample : ProcessView → List (ℕ × ResourceSample) → ProcessView
unfolding sample_of apply_sample
with_sample v samples =
    apply_sample v (elim v.pid [ none ↦ none | some pid ↦ sample_of pid samples ])

abbrev pub has_probe {ℓ} : {A : Type ℓ} → Option A → Bool
has_probe none = false
has_probe (some probe) = true

unfoldable pub awaits_ready : ProcessRecord → Bool
awaits_ready r = has_probe r.spec.ready_probe && status_eq r.runtime.status launching

masked_entry : EnvValue → EnvDisplay
masked_entry entry = record {
  key = entry.key;
  value = mask_secret entry.value;
  scope = entry.scope;
}

unfoldable pub masked_environment : List EnvValue → List EnvDisplay
unfolding masked_entry
masked_environment env = map masked_entry env

unfoldable pub view : ℕ → ProcessRecord → ProcessView
unfolding masked_environment
view now_ms r = record {
  pm_id = r.runtime.pm_id;
  name = r.runtime.name;
  pid = r.runtime.pid;
  status = r.runtime.status;
  restart_time = r.runtime.restart_time;
  unstable_restarts = r.runtime.unstable_restarts;
  max_restarts = r.spec.max_restarts;
  autorestart = r.spec.autorestart;
  uptime_ms = uptime_ms r.runtime now_ms;
  next_fire_ms = none;
  schedule = r.spec.schedule;
  sandbox_mode = mode_as_str r.spec.sandbox.mode;
  sandbox_read = read_as_str r.spec.sandbox.read;
  sandbox_network = r.spec.sandbox.network;
  env_origin = r.spec.env_origin;
  env_declared = declared_env_count r.spec;
  env = masked_environment r.spec.env;
  script = r.spec.script;
  args = r.spec.args;
  cwd = r.spec.cwd;
  depends_on = r.spec.depends_on;
  writable_roots = granted_roots r.spec.sandbox;
  rss_kib = none;
  cpu_tenths = none;
}
