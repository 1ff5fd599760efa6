-- ===== src/Usecases/Table/Removal.antt =====
-- usecases/src/table.rs: a record that is removed, or removed and put back, keeps the invariant.
use pm.Base.{
  ◌≡◌, sym, subst, Bool, inl, inr, some, List, [], ◌∷◌, map, Memᴰ, mem-map, mem-map_of_mem, find,
  find-some, All, All_at, Bool-cases,
}
use mathlib.Core.Option.{some-injective}
use pm.Usecases.Record.{ProcessRecord}
use pm.Usecases.Selector.{AppSelector}
use pm.Usecases.Table.{ProcessTable, selects, find_record, remove_first, remove, restore}
use pm.Usecases.Table.Invariant.{Distinct, IsSound, IsTable}
use pm.Usecases.Table.Growth.{restore-IsTable}

mem-remove_first :
    (p : ProcessRecord → Bool) {a : ProcessRecord} (xs : List ProcessRecord)
    → Memᴰ a (remove_first p xs)
    → Memᴰ a xs
unfolding remove_first
mem-remove_first p [] m = m
mem-remove_first p {a} (x ∷ xs) m = elim (Bool-cases (p x)) [
  | inl e ↦ Memᴰ.tail (rw (e, remove_first) at m)
  | inr e ↦ split (rw (e, remove_first) at m) (λ n. mem-remove_first p xs n)
]
  where
    split :
        Memᴰ a (x ∷ remove_first p xs) → (Memᴰ a (remove_first p xs) → Memᴰ a xs) → Memᴰ a (x ∷ xs)
    split (Memᴰ.head e) f = Memᴰ.head e
    split (Memᴰ.tail n) f = Memᴰ.tail (f n)

module _ (p : ProcessRecord → Bool) where
  Distinct-remove_first {ℓ} :
      {B : Type ℓ} (f : ProcessRecord → B) (xs : List ProcessRecord)
      → Distinct (map f xs)
      → Distinct (map f (remove_first p xs))
  unfolding remove_first
  Distinct-remove_first f [] d = tt
  Distinct-remove_first f (x ∷ xs) d = elim (Bool-cases (p x)) [
    | inl e ↦ rw (e, remove_first) d.1
    | inr e ↦
        rw (e, remove_first)
          (
            λ m.
                let (a, n, same) = mem-map f (remove_first p xs) m in
                d.0 (
                  subst (λ b. Memᴰ b (map f xs)) (sym same)
                    (mem-map_of_mem f xs (mem-remove_first p xs n))),
            Distinct-remove_first f xs d.1,
          )
  ]

  All-remove_first {ℓ} :
      (P : ProcessRecord → Type ℓ) (xs : List ProcessRecord) → All P xs → All P (remove_first p xs)
  unfolding remove_first
  All-remove_first P [] a = tt
  All-remove_first P (x ∷ xs) a = elim (Bool-cases (p x)) [
    | inl e ↦ rw (e, remove_first) a.1
    | inr e ↦ rw (e, remove_first) (a.0, All-remove_first P xs a.1)
  ]

  -- What is removed is not there any more.
  pub remove_first-absent {ℓ} :
      {B : Type ℓ} (f : ProcessRecord → B) (xs : List ProcessRecord) {r : ProcessRecord}
      → Distinct (map f xs)
      → find p xs ≡ some r
      → ¬ Memᴰ (f r) (map f (remove_first p xs))
  unfolding remove_first
  remove_first-absent f [] d h = cc
  remove_first-absent f (x ∷ xs) {r} d h = elim (Bool-cases (p x)) [
    | inl e ↦
        rw (e, remove_first)
          (subst (λ y. ¬ Memᴰ (f y) (map f xs)) (some-injective x r (rw e at h)) d.0)
    | inr e ↦
        let h' : find p xs ≡ some r = rw e at h in
        rw (e, remove_first) (λ m. split (find-some p xs h').0 (remove_first-absent f xs d.1 h') m)
  ]
    where
      split :
          Memᴰ r xs
          → ¬ Memᴰ (f r) (map f (remove_first p xs))
          → ¬ Memᴰ (f r) (f x ∷ map f (remove_first p xs))
      split m k (Memᴰ.head e) = d.0 (subst (λ b. Memᴰ b (map f xs)) e (mem-map_of_mem f xs m))
      split m k (Memᴰ.tail n) = k n

-- Removing a record keeps the invariant.
pub remove-IsTable :
    (selector : AppSelector) (table : ProcessTable)
    → IsTable table
    → IsTable (remove selector table).0
unfolding remove
remove-IsTable selector table t = record {
  sound = All-remove_first (selects selector) IsSound table.records t.sound;
  distinct_names =
      Distinct-remove_first (selects selector) (λ r. r.runtime.name) table.records t.distinct_names;
  distinct_ids =
      Distinct-remove_first (selects selector) (λ r. r.runtime.pm_id) table.records t.distinct_ids;
}

-- Putting back the record that was removed keeps it too.
pub remove-restore-IsTable :
    (selector : AppSelector) (table : ProcessTable) (r : ProcessRecord)
    → IsTable table
    → (remove selector table).1 ≡ some r
    → IsTable (restore r (remove selector table).0)
unfolding remove find_record
remove-restore-IsTable selector table r t found =
    restore-IsTable r (remove selector table).0 (remove-IsTable selector table t)
      (All_at IsSound table.records t.sound (find-some (selects selector) table.records found).0)
      (remove_first-absent (selects selector) (λ r. r.runtime.name) table.records t.distinct_names
        found)
      (remove_first-absent (selects selector) (λ r. r.runtime.pm_id) table.records t.distinct_ids
        found)
