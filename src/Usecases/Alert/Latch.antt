-- ===== src/Usecases/Alert/Latch.antt =====
-- usecases/src/alert.rs: what the latch lets through.
use pm.Base.{
  ℕ, ◌-◌, ◌≡◌, refl, ◌&&◌, false, none, some, List, [], ◌∷◌, Text, text_eq, text_eq_iff, ltb, ◌==◌,
  filter, not, arith, if◌then◌else◌,
}
use pm.Usecases.Alert.{
  AlertKind, AlertLatch, discriminant, same_key, last_fired, record_fired, is_cooling, fire, forget,
}

last_fired-record_fired :
    (s : Text) (i : ℕ) (t : Text) (j : ℕ) (ms : ℕ) (fired : List ((Text × ℕ) × ℕ))
    → last_fired (t, j) (record_fired (s, i) ms fired)
      ≡ (if same_key (s, i) (t, j) then some ms else last_fired (t, j) fired)
unfolding last_fired record_fired
last_fired-record_fired s i t j ms [] = refl
last_fired-record_fired s i t j ms (((u, k), old) ∷ fired) = ground (
  arith,
  last_fired-record_fired s i t j ms fired,
  text_eq_iff u s,
  text_eq_iff s t,
  text_eq_iff u t,
)

last_fired-filter :
    (s : Text) (t : Text) (j : ℕ) (fired : List ((Text × ℕ) × ℕ))
    → last_fired (t, j) (filter (λ e. not (text_eq e.0.0 s)) fired)
      ≡ (if text_eq s t then none else last_fired (t, j) fired)
unfolding last_fired
last_fired-filter s t j [] = ground arith
last_fired-filter s t j (((u, k), old) ∷ fired) =
    ground (arith, last_fired-filter s t j fired, text_eq_iff u s, text_eq_iff s t, text_eq_iff u t)

-- An alert that is not held back starts a cooldown from `now` for its own service and kind, and
-- changes nothing for any other.
pub fire-cools :
    (name other : Text) (kind other_kind : AlertKind) (now later : ℕ) (latch : AlertLatch)
    → is_cooling latch (name, discriminant kind) now ≡ false
    → is_cooling (fire name kind now latch).1 (other, discriminant other_kind) later ≡ (
        if text_eq name other && (discriminant kind == discriminant other_kind)
        then ltb (later - now) latch.cooldown_ms
        else is_cooling latch (other, discriminant other_kind) later)
unfolding fire is_cooling
fire-cools name other kind other_kind now later latch h = ground (
  arith,
  last_fired-record_fired name (discriminant kind) other (discriminant other_kind) now latch.fired,
)

-- Forgetting a service ends the cooldowns of all its kinds, and those of no other service.
pub forget-clears :
    (name other : Text) (kind : AlertKind) (later : ℕ) (latch : AlertLatch)
    → is_cooling (forget name latch) (other, discriminant kind) later
      ≡ (if text_eq name other then false else is_cooling latch (other, discriminant kind) later)
unfolding forget is_cooling
forget-clears name other kind later latch =
    ground (arith, last_fired-filter name other (discriminant kind) latch.fired)
