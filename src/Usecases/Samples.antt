-- ===== src/Usecases/Samples.antt =====
-- Concrete values for the examples: a world that is a clock and refuses nothing, and a table.
use pm.Base.{map, ℕ, suc, refl, true, false, none, some, [], ◌∷◌, Text, codes, ok}
use pm.Entities.Policy.{workspace_write, full}
use pm.Entities.Priority.{standard}
use pm.Entities.Spec.{AppSpec, plain}
use pm.Entities.Status.{online}
use pm.Usecases.Ports.{Ports, alive, gone, ready}
use pm.Usecases.Record.{ProcessRecord}
use pm.Usecases.Table.{ProcessTable}
use pm.Usecases.Table.Invariant.{IsTable}

abbrev pub clock : Ports ℕ
clock = record {
  spawn = λ spec w. (ok 77, suc w);
  adopt = λ pid w. suc w;
  tracked_pids = λ w. ([], w);
  terminate = λ pid scope w. (ok tt, suc w);
  force_kill = λ pid scope w. (ok tt, suc w);
  deliver = λ signal pid scope w. (ok tt, suc w);
  wrap = λ app policy program args. ok (record { program = program; args = args });
  load = λ w. (ok (record { records = []; stranded = []; boot = none }), w);
  save = λ records boot w. (ok tt, suc w);
  now_ms = λ w. (w, w);
  identity = λ pid w. (alive (codes "t"), w);
  identities = λ pids w. (map (λ pid. (pid, alive (codes "t"))) pids, w);
  wait_gone = λ pid timeout_ms w. (gone, w);
  wait_group_gone = λ pid timeout_ms w. (true, w);
  resident_memory = λ pids w. ([], w);
  resource_usage = λ pids w. ([], w);
  digest = λ t. t;
  file_digest = λ path w. (ok (codes "d"), w);
  next_fire_ms = λ app cron now w. (none, w);
  check_ready = λ probe w. (ready, w);
  rotate_logs = λ logs_dir max_bytes w. (ok [], w);
}

abbrev pub web : Text
web = codes "web"

abbrev pub spec : AppSpec
spec = record {
  name = web;
  script = codes "/bin/web";
  args = [];
  cwd = codes "/srv";
  env = [];
  env_origin = plain;
  autorestart = true;
  min_uptime_ms = 1000;
  max_restarts = 15;
  restart_delay_ms = 100;
  max_restart_delay_ms = 15000;
  schedule = none;
  depends_on = [];
  max_memory_kib = none;
  ready_probe = none;
  liveness_probe = none;
  listen_timeout_ms = none;
  stop_exit_codes = [];
  self_responsible = false;
  priority = standard;
  sandbox = record {
    mode = workspace_write;
    read = full;
    network = true;
    writable_roots = [];
    readable_roots = [];
    derived_readable_roots = [];
    derived_roots = [];
    unreadable_roots = [];
  };
}

abbrev pub running : ProcessRecord
running = record {
  spec = spec;
  runtime = record {
    pm_id = 1;
    name = web;
    pid = some 42;
    status = online;
    restart_time = 0;
    unstable_restarts = 0;
    created_at_ms = 0;
    started_at_ms = some 5;
    identity = none;
    pending_restart = false;
    supervised_restart = false;
    liveness_failures = 0;
    schedule_armed = true;
  };
}

abbrev pub table : ProcessTable
table = record { records = running ∷ []; boot = none }

pub table-IsTable : IsTable table
table-IsTable = record {
  sound = ((record { pid = refl; no_start = λ e. cc; no_identity = λ e. refl }, refl), tt);
  distinct_names = ((λ m. elim m [ ]), tt);
  distinct_ids = ((λ m. elim m [ ]), tt);
}

abbrev pub db : Text
db = codes "db"
