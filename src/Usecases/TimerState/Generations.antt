-- ===== src/Usecases/TimerState/Generations.antt =====
-- Generations of watched processes: an exit that belongs to an older process is told apart.
use pm.Base.{
  ℕ, suc, ◌≤◌, ◌<◌, ◌≡◌, refl, true, false, none, some, List, [], ◌∷◌, Text, text_eq, text_eq_iff,
  text_eq_refl, max_u64, arith, if◌then◌else◌,
}
use pm.Usecases.TimerState.{
  TimerState, get, insert, delete, new, bump, current_generation, is_current,
}

pub get-insert {ℓ} :
    {V : Type ℓ} (k j : Text) (v : V) (m : List (Text × V))
    → get j (insert k v m) ≡ (if text_eq k j then some v else get j m)
unfolding get insert
get-insert k j v [] = refl
get-insert k j v ((i, w) ∷ m) =
    ground (arith, get-insert k j v m, text_eq_iff i k, text_eq_iff k j, text_eq_iff i j)

pub get-delete {ℓ} :
    {V : Type ℓ} (k j : Text) (m : List (Text × V))
    → get j (delete k m) ≡ (if text_eq k j then none else get j m)
unfolding get delete
get-delete k j [] = ground arith
get-delete k j ((i, w) ∷ m) =
    ground (arith, get-delete k j m, text_eq_iff i k, text_eq_iff k j, text_eq_iff i j)

-- Every generation that was handed out is at most the counter.
pub record IsBounded (t : TimerState) : Type 0 where
  pub bounded : (name : Text) → current_generation name t ≤ t.next_generation

pub new-IsBounded : IsBounded new
unfolding new current_generation
new-IsBounded = record { bounded = λ name. omega arith }

-- What `bump` does to the generation of each name, while the counter is below its maximum.
current_generation-bump :
    (name j : Text) (t : TimerState)
    → t.next_generation < max_u64
    → current_generation j (bump name t).0
      ≡ (if text_eq name j then suc t.next_generation else current_generation j t)
unfolding current_generation bump
current_generation-bump name j t room =
    ground (arith, get-insert name j (suc t.next_generation) t.generations)

bump_counter :
    (name : Text) (t : TimerState)
    → t.next_generation < max_u64
    → ((bump name t).1 ≡ suc t.next_generation)
      × ((bump name t).0.next_generation ≡ suc t.next_generation)
unfolding bump
bump_counter name t room = ground arith

-- Below the counter's maximum, starting to watch a service's new process keeps the bound, makes the
-- new generation current, makes any generation `old` handed out before stale for that service, and
-- leaves what is current for any other service `j` alone.
pub bump_stales :
    (name j : Text) (old g : ℕ) (t : TimerState)
    → IsBounded t
    → t.next_generation < max_u64
    → old ≤ t.next_generation
    → text_eq name j ≡ false
    → IsBounded (bump name t).0
      × (is_current name (bump name t).1 (bump name t).0 ≡ true)
      × (is_current name old (bump name t).0 ≡ false)
      × (is_current j g (bump name t).0 ≡ is_current j g t)
unfolding is_current
bump_stales name j old g t v room before other = (
  record {
    bounded = λ i.
        ground
          (arith, current_generation-bump name i t room, bump_counter name t room, v.bounded i);
  },
  ground (
    arith,
    current_generation-bump name name t room,
    bump_counter name t room,
    text_eq_refl name,
  ),
  ground (arith, current_generation-bump name name t room, text_eq_refl name),
  ground (arith, current_generation-bump name j t room),
)
