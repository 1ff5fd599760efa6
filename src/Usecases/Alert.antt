-- ===== src/Usecases/Alert.antt =====
-- usecases/src/alert.rs, and the effects of usecases/src/supervision.rs. The map of the latch is an
-- association list of one entry for each name and kind.
pub mod Latch
use pm.Base.{
  ℕ, ◌-◌, Bool, true, false, not, ◌&&◌, Option, none, some, List, [], ◌∷◌, filter, Text, text_eq,
  ltb, ◌==◌, if◌then◌else◌,
}
use pm.Entities.Ready.{ReadyProbe}
use pm.Usecases.Ports.{ExitOutcome}

pub data AlertKind : Type 0 where
  exited : ExitOutcome → AlertKind
  ready_failed : (downstream : List Text) → AlertKind
  liveness_killed memory_killed launch_failed : AlertKind

pub record Alert : Type 0 where
  pub name : Text
  pub kind : AlertKind

pub data SupervisionEffect : Type 0 where
  schedule_memory_sample schedule_liveness_sample schedule_log_rotate :
      (delay_ms : ℕ) → SupervisionEffect
  arm_timer : (name : Text) (fire_at_ms delay_ms : ℕ) → SupervisionEffect
  disarm_timer cancel_restart cancel_force_kill cancel_ready : (name : Text) → SupervisionEffect
  schedule_restart : (name : Text) (delay_ms : ℕ) → SupervisionEffect
  schedule_force_kill :
      (name : Text) (generation pid : ℕ) (token : Option Text) (delay_ms : ℕ) → SupervisionEffect
  watch_exit : (name : Text) (generation pid : ℕ) (token : Option Text) → SupervisionEffect
  await_ready :
      (name : Text) (generation : ℕ) (probe : ReadyProbe) (timeout_ms interval_ms : ℕ)
      → SupervisionEffect
  notify : Alert → SupervisionEffect

-- `std::mem::discriminant`
unfoldable pub discriminant : AlertKind → ℕ
discriminant (exited outcome) = 0
discriminant (ready_failed downstream) = 1
discriminant liveness_killed = 2
discriminant memory_killed = 3
discriminant launch_failed = 4

pub record AlertLatch : Type 0 where
  pub cooldown_ms : ℕ
  pub fired : List ((Text × ℕ) × ℕ)

unfoldable pub new : ℕ → AlertLatch
new cooldown_ms = record { cooldown_ms = cooldown_ms; fired = [] }

abbrev pub same_key : Text × ℕ → Text × ℕ → Bool
same_key (s, i) (t, j) = text_eq s t && (i == j)

unfoldable pub last_fired : Text × ℕ → List ((Text × ℕ) × ℕ) → Option ℕ
last_fired key [] = none
last_fired key ((k, ms) ∷ fired) = if same_key k key then some ms else last_fired key fired

unfoldable pub record_fired : Text × ℕ → ℕ → List ((Text × ℕ) × ℕ) → List ((Text × ℕ) × ℕ)
record_fired key now_ms [] = (key, now_ms) ∷ []
record_fired key now_ms ((k, ms) ∷ fired) =
    if same_key k key then (k, now_ms) ∷ fired else (k, ms) ∷ record_fired key now_ms fired

-- Whether the alert of a key is still cooling down.
unfoldable pub is_cooling : AlertLatch → Text × ℕ → ℕ → Bool
unfolding last_fired
is_cooling latch key now_ms = elim (last_fired key latch.fired) [
  | none ↦ false
  | some last_ms ↦ ltb (now_ms - last_ms) latch.cooldown_ms
]

-- The effect, if the alert is not held back, and the new latch.
unfoldable pub fire : Text → AlertKind → ℕ → AlertLatch → Option SupervisionEffect × AlertLatch
unfolding record_fired
fire name kind now_ms latch =
    if is_cooling latch (name, discriminant kind) now_ms then (none, latch) else (
      some (notify (record { name = name; kind = kind })),
      record latch { fired = record_fired (name, discriminant kind) now_ms latch.fired },
    )

unfoldable pub forget : Text → AlertLatch → AlertLatch
forget name latch = record latch { fired = filter (λ e. not (text_eq e.0.0 name)) latch.fired }

unfoldable pub settle :
    Text → ExitOutcome → (alarming : Bool) → ℕ → AlertLatch → Option SupervisionEffect × AlertLatch
settle name outcome alarming now_ms latch =
    if alarming then fire name (exited outcome) now_ms latch else (none, forget name latch)
