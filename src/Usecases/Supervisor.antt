-- ===== src/Usecases/Supervisor.antt =====
-- The state of usecases/src/supervisor.rs and the helpers that its handlers share. A method that
-- writes to `&mut self`, pushes to `&mut effects` and calls the ports acts on a `Turn`, which holds
-- the three; the effects stand in the order in which they are pushed. The map of the waiters and the
-- set of the failed probes are lists.
mod Examples
pub mod Waiters
pub mod Timers
pub mod Launching
pub mod Readiness
pub mod Events
pub mod Handlers
pub mod Batches
pub mod Requests
pub mod Takeover
pub mod Healthy
pub mod Downstream
pub mod Recovers
pub mod Relaunch
pub mod Restarts
pub mod Releases
pub mod Watched
pub mod Answers
pub mod Total
use pm.Base.{ℕ, Option, none, some, List, [], ◌∷◌, ◌++◌, Text}
use pm.Usecases.Alert.{SupervisionEffect, AlertLatch, AlertKind, fire}
use pm.Usecases.Alert.{new as new_latch}
use pm.Usecases.Ports.{Ports}
use pm.Usecases.Query.{unsettled_count, unswept_pids, running_pids, identity_token_of}
use pm.Usecases.Record.{ProcessView}
use pm.Usecases.Selector.{name as by_name}
use pm.Usecases.Table.{ProcessTable, empty, save_table}
use pm.Usecases.TimerState.{TimerState, next_fire_of, new as new_timers}

pub record Supervisor : Type 0 where
  pub table : ProcessTable
  pub timers : TimerState
  pub logs_dir : Text
  pub kill_timeout_ms : ℕ
  pub ready_timeout_ms : ℕ
  pub ready_poll_interval_ms : ℕ
  pub waiters : List (Text × List Text)
  pub ready_failed : List Text
  pub alerts : AlertLatch

unfoldable pub new :
    (logs_dir : Text)
    (kill_timeout_ms ready_timeout_ms ready_poll_interval_ms notify_cooldown_ms : ℕ)
    → Supervisor
new logs_dir kill_timeout_ms ready_timeout_ms ready_poll_interval_ms notify_cooldown_ms = record {
  table = empty;
  timers = new_timers;
  logs_dir = logs_dir;
  kill_timeout_ms = kill_timeout_ms;
  ready_timeout_ms = ready_timeout_ms;
  ready_poll_interval_ms = ready_poll_interval_ms;
  waiters = [];
  ready_failed = [];
  alerts = new_latch notify_cooldown_ms;
}

unfoldable pub unsettled : Supervisor → ℕ
unsettled s = unsettled_count s.table

unfoldable pub survivor_pids : Supervisor → List ℕ → List ℕ
survivor_pids s tracked = unswept_pids tracked (running_pids s.table)

unfoldable pub identity_token : Supervisor → Text → Option Text
identity_token s name = identity_token_of s.table (by_name name)

unfoldable pub with_next_fire : Supervisor → ProcessView → ProcessView
with_next_fire s v = record v { next_fire_ms = next_fire_of v.name s.timers }

pub record Turn (W : Type 0) : Type 0 where
  pub supervisor : Supervisor
  pub effects : List SupervisionEffect
  pub world : W

module _ {W : Type 0} where
  abbrev pub push : SupervisionEffect → Turn W → Turn W
  push effect t = record t { effects = t.effects ++ effect ∷ [] }

  abbrev pub with_timers : TimerState → Turn W → Turn W
  with_timers timers t = record t { supervisor = record t.supervisor { timers = timers } }

  abbrev pub with_table : ProcessTable → Turn W → Turn W
  with_table table t = record t { supervisor = record t.supervisor { table = table } }

  abbrev pub with_alerts : AlertLatch → Turn W → Turn W
  with_alerts alerts t = record t { supervisor = record t.supervisor { alerts = alerts } }

  -- `effects.extend` on an option.
  abbrev pub extend : Option SupervisionEffect → Turn W → Turn W
  extend none t = t
  extend (some effect) t = push effect t

  -- A step after one that may fail an `expect`.
  abbrev pub and_then : Option (Turn W) → (Turn W → Option (Turn W)) → Option (Turn W)
  and_then none f = none
  and_then (some t) f = f t

module _ {W : Type 0} (ports : Ports W) where
  -- `effects.extend(self.alerts.fire(name, kind, ports.now_ms()))`
  unfoldable pub fire_alert : Text → AlertKind → Turn W → Turn W
  fire_alert name kind t =
      let (now, w) = ports.now_ms t.world in
      let (effect, alerts) = fire name kind now t.supervisor.alerts in
      extend effect (with_alerts alerts (record t { world = w }))

  -- A failed save is logged, and no more.
  unfoldable pub save_logged : Turn W → Turn W
  save_logged t =
      let (saved, w) = save_table ports t.supervisor.table t.world in record t { world = w }
