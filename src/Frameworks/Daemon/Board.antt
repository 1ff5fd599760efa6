-- ===== src/Frameworks/Daemon/Board.antt =====
-- frameworks/src/daemon/events.rs and timers.rs: the tasks that the daemon has started. A task is
-- what it was started for: an event that it sends after a delay, or a probe that it repeats. Exits
-- that are watched and alerts that are shown are tasks that the board does not keep.
use pm.Base.{ℕ, Option, none, some, List, [], ◌∷◌, ◌++◌, Text}
use pm.Entities.Ready.{ReadyProbe}
use pm.Usecases.Alert.{Alert, SupervisionEffect}
use pm.Usecases.Ports.{ExitOutcome}
use pm.Usecases.Supervision.{SupervisionRequest}
use pm.Usecases.TimerState.{insert, delete}

pub data DaemonEvent : Type 0 where
  command : SupervisionRequest → DaemonEvent
  exited : (name : Text) (generation : ℕ) (outcome : ExitOutcome) → DaemonEvent
  restart : (name : Text) → DaemonEvent
  fire : (name : Text) (fire_at_ms : ℕ) → DaemonEvent
  force_kill : (name : Text) (generation pid : ℕ) (token : Option Text) → DaemonEvent
  sample_memory sample_liveness rotate_logs shutdown : DaemonEvent
  ready : (name : Text) (generation : ℕ) → DaemonEvent
  ready_timeout : (name : Text) (generation : ℕ) (reason : Text) → DaemonEvent

pub data Task : Type 0 where
  delayed : (delay_ms : ℕ) (event : DaemonEvent) → Task
  probing : (name : Text) (generation : ℕ) (probe : ReadyProbe) (timeout_ms interval_ms : ℕ) → Task

pub record Watch : Type 0 where
  pub name : Text
  pub generation : ℕ
  pub pid : ℕ
  pub token : Option Text

pub record TaskBoard : Type 0 where
  pub fires : List (Text × Task)
  pub restarts : List (Text × Task)
  pub force_kills : List (Text × Task)
  pub ready : List (Text × Task)
  pub memory_sample : Option Task
  pub liveness_sample : Option Task
  pub log_rotate : Option Task
  pub watches : List Watch
  pub alerts : List Alert

unfoldable pub new : TaskBoard
new = record {
  fires = [];
  restarts = [];
  force_kills = [];
  ready = [];
  memory_sample = none;
  liveness_sample = none;
  log_rotate = none;
  watches = [];
  alerts = [];
}

unfoldable pub rearm : Text → ℕ → DaemonEvent → List (Text × Task) → List (Text × Task)
unfolding insert delete
rearm name delay_ms event slot = insert name (delayed delay_ms event) (delete name slot)

unfoldable pub forget_force_kill : Text → TaskBoard → TaskBoard
unfolding delete
forget_force_kill name b = record b { force_kills = delete name b.force_kills }

-- `rearm_once`: the task before is aborted.
unfoldable pub rearm_once : ℕ → DaemonEvent → Option Task
rearm_once delay_ms event = some (delayed delay_ms event)

unfoldable pub schedule_memory_sample : ℕ → TaskBoard → TaskBoard
unfolding rearm_once
schedule_memory_sample delay_ms b = record b { memory_sample = rearm_once delay_ms sample_memory }

unfoldable pub schedule_liveness_sample : ℕ → TaskBoard → TaskBoard
unfolding rearm_once
schedule_liveness_sample delay_ms b = record b {
  liveness_sample = rearm_once delay_ms sample_liveness;
}

unfoldable pub schedule_log_rotate : ℕ → TaskBoard → TaskBoard
unfolding rearm_once
schedule_log_rotate delay_ms b = record b { log_rotate = rearm_once delay_ms rotate_logs }

unfoldable pub arm : Text → (fire_at_ms delay_ms : ℕ) → TaskBoard → TaskBoard
unfolding rearm
arm name fire_at_ms delay_ms b = record b {
  fires = rearm name delay_ms (fire name fire_at_ms) b.fires;
}

unfoldable pub schedule_restart : Text → ℕ → TaskBoard → TaskBoard
unfolding rearm
schedule_restart name delay_ms b = record b {
  restarts = rearm name delay_ms (restart name) b.restarts;
}

unfoldable pub schedule_force_kill :
    Text → (generation pid : ℕ) → Option Text → (delay_ms : ℕ) → TaskBoard → TaskBoard
unfolding rearm
schedule_force_kill name generation pid token delay_ms b = record b {
  force_kills = rearm name delay_ms (force_kill name generation pid token) b.force_kills;
}

unfoldable pub watch : Text → (generation pid : ℕ) → Option Text → TaskBoard → TaskBoard
watch name generation pid token b = record b {
  watches =
      b.watches ++ record { name = name; generation = generation; pid = pid; token = token } ∷ [];
}

unfoldable pub await_ready :
    Text → ℕ → ReadyProbe → (timeout_ms interval_ms : ℕ) → TaskBoard → TaskBoard
unfolding insert delete
await_ready name generation probe timeout_ms interval_ms b = record b {
  ready = insert name (probing name generation probe timeout_ms interval_ms) (delete name b.ready);
}

unfoldable pub notify : Alert → TaskBoard → TaskBoard
notify alert b = record b { alerts = b.alerts ++ alert ∷ [] }

unfoldable pub apply : SupervisionEffect → TaskBoard → TaskBoard
unfolding delete
apply (SupervisionEffect.schedule_memory_sample delay_ms) b = schedule_memory_sample delay_ms b
apply (SupervisionEffect.schedule_liveness_sample delay_ms) b = schedule_liveness_sample delay_ms b
apply (SupervisionEffect.schedule_log_rotate delay_ms) b = schedule_log_rotate delay_ms b
apply (SupervisionEffect.arm_timer name fire_at_ms delay_ms) b = arm name fire_at_ms delay_ms b
apply (SupervisionEffect.disarm_timer name) b = record b { fires = delete name b.fires }
apply (SupervisionEffect.schedule_restart name delay_ms) b = schedule_restart name delay_ms b
apply (SupervisionEffect.cancel_restart name) b = record b { restarts = delete name b.restarts }
apply (SupervisionEffect.schedule_force_kill name generation pid token delay_ms) b =
    schedule_force_kill name generation pid token delay_ms b
apply (SupervisionEffect.cancel_force_kill name) b = record b {
  force_kills = delete name b.force_kills;
}
apply (SupervisionEffect.watch_exit name generation pid token) b = watch name generation pid token b
apply (SupervisionEffect.await_ready name generation probe timeout_ms interval_ms) b =
    await_ready name generation probe timeout_ms interval_ms b
apply (SupervisionEffect.cancel_ready name) b = record b { ready = delete name b.ready }
apply (SupervisionEffect.notify alert) b = notify alert b

-- `Daemon::run`
unfoldable pub apply_all : List SupervisionEffect → TaskBoard → TaskBoard
unfolding apply
apply_all [] b = b
apply_all (effect ∷ effects) b = apply_all effects (apply effect b)
