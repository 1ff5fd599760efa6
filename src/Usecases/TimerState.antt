-- ===== src/Usecases/TimerState.antt =====
-- usecases/src/timer_state.rs. The maps are association lists of one entry for each key; the
-- order in which `drain` yields the keys of a hash map is not modelled.
pub mod Generations
pub mod Refines
use pm.Base.{
  ℕ, Bool, true, false, not, Option, none, some, List, [], ◌∷◌, map, filter, Text, text_eq,
  contains_text, saturating_add, max_u64, ◌==◌, if◌then◌else◌,
}

module _ {ℓ} {V : Type ℓ} where
  unfoldable pub get : Text → List (Text × V) → Option V
  get k [] = none
  get k ((j, v) ∷ m) = if text_eq j k then some v else get k m

  unfoldable pub insert : Text → V → List (Text × V) → List (Text × V)
  insert k v [] = (k, v) ∷ []
  insert k v ((j, w) ∷ m) = if text_eq j k then (j, v) ∷ m else (j, w) ∷ insert k v m

  unfoldable pub delete : Text → List (Text × V) → List (Text × V)
  delete k [] = []
  delete k ((j, w) ∷ m) = let rest = delete k m in if text_eq j k then rest else (j, w) ∷ rest

pub record TimerState : Type 0 where
  pub fires : List (Text × ℕ)
  pub restarts : List Text
  pub generations : List (Text × ℕ)
  pub next_generation : ℕ

unfoldable pub new : TimerState
new = record { fires = []; restarts = []; generations = []; next_generation = 0 }

unfoldable pub next_fire_of : Text → TimerState → Option ℕ
unfolding get
next_fire_of name t = get name t.fires

abbrev is_at : ℕ → Option ℕ → Bool
is_at n none = false
is_at n (some m) = m == n

unfoldable pub fire_is_due : Text → ℕ → TimerState → Bool
unfolding next_fire_of
fire_is_due name fire_at_ms t = is_at fire_at_ms (next_fire_of name t)

unfoldable pub arm : Text → ℕ → TimerState → TimerState
unfolding insert
arm name fire_at_ms t = record t { fires = insert name fire_at_ms t.fires }

unfoldable pub disarm : Text → TimerState → TimerState
unfolding delete
disarm name t = record t { fires = delete name t.fires }

unfoldable pub disarm_all : TimerState → TimerState × List Text
disarm_all t = (record t { fires = [] }, map (λ e. e.0) t.fires)

unfoldable pub queue_restart : Text → TimerState → TimerState
unfolding contains_text
queue_restart name t = record t {
  restarts = if contains_text t.restarts name then t.restarts else name ∷ t.restarts;
}

-- The new state, and whether a restart was queued.
unfoldable pub claim_restart : Text → TimerState → TimerState × Bool
unfolding contains_text
claim_restart name t = (
  record t { restarts = filter (λ n. not (text_eq n name)) t.restarts },
  contains_text t.restarts name,
)

unfoldable pub cancel_all_restarts : TimerState → TimerState × List Text
cancel_all_restarts t = (record t { restarts = [] }, t.restarts)

unfoldable pub bump : Text → TimerState → TimerState × ℕ
unfolding insert
bump name t =
    let next = saturating_add max_u64 t.next_generation 1 in
    (record t { generations = insert name next t.generations; next_generation = next }, next)

abbrev or_zero : Option ℕ → ℕ
or_zero none = 0
or_zero (some n) = n

unfoldable pub current_generation : Text → TimerState → ℕ
unfolding get
current_generation name t = or_zero (get name t.generations)

unfoldable pub is_current : Text → ℕ → TimerState → Bool
is_current name generation t = current_generation name t == generation
