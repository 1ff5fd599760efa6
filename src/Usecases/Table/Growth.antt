-- ===== src/Usecases/Table/Growth.antt =====
-- usecases/src/table.rs: a record that is added keeps the invariant of the table.
use pm.Base.{
  ℕ, ◌<◌, ◌≡◌, refl, sym, ap, ◌∙◌, subst, true, ◌⊎◌, inl, inr, none, some, List, [], ◌∷◌, ◌++◌, map,
  Memᴰ, Memᴰ-append_cases, mem-map, mem-map_of_mem, find, find-some, find-none, All-append, All_at,
  length, Text, text_eq_iff, max_u32, Option-cases, arith,
}
use pm.Entities.Runtime.{new}
use pm.Entities.Spec.{AppSpec}
use pm.Usecases.Record.{ProcessRecord}
use pm.Usecases.Table.{
  ProcessTable, has_name, pm_ids, write_record, upsert, restore, lowest_free_pm_id,
}
use pm.Usecases.Table.Ids.{lowest_free_pm_id_lem}
use pm.Usecases.Table.Invariant.{
  IsCoherent, Distinct, names, IsSound, IsTable, write_record-IsTable,
}

Distinct-snoc {ℓ κ} :
    {A : Type ℓ} {B : Type κ} (f : A → B) (xs : List A) (y : A)
    → Distinct (map f xs)
    → ¬ Memᴰ (f y) (map f xs)
    → Distinct (map f (xs ++ y ∷ []))
Distinct-snoc {A} f [] y d fresh = (λ m. elim m [ ], tt)
Distinct-snoc {A} f (x ∷ xs) y d fresh = (
  λ m. let (a, n, e) = mem-map f (xs ++ y ∷ []) m in clash (Memᴰ-append_cases xs n) e,
  Distinct-snoc f xs y d.1 (λ m. fresh (Memᴰ.tail m)),
)
  where
    clash : {a : A} → Memᴰ a xs ⊎ Memᴰ a (y ∷ []) → f x ≡ f a → ⊥
    clash (inl n) e = d.0 (subst (λ b. Memᴰ b (map f xs)) (sym e) (mem-map_of_mem f xs n))
    clash (inr (Memᴰ.head same)) e = fresh (Memᴰ.head (ap f (sym same) ∙ sym e))
    clash (inr (Memᴰ.tail n)) e = elim n [ ]

-- A name that no record is found by is no record's.
pub names-ne :
    (name : Text) (records : List ProcessRecord)
    → find (has_name name) records ≡ none
    → ¬ Memᴰ name (names records)
names-ne name records h m =
    let (r, n, e) = mem-map (λ r. r.runtime.name) records m in
    let other = find-none (has_name name) records h n in
    cc (other, (text_eq_iff r.runtime.name name).1 (sym e))

new-IsCoherent : (id : ℕ) (name : Text) (now : ℕ) → IsCoherent (new id name now)
unfolding new
new-IsCoherent id name now = ground arith

-- Appending a sound record of a new name and a new id keeps the invariant.
pub restore-IsTable :
    (r : ProcessRecord) (table : ProcessTable)
    → IsTable table
    → IsSound r
    → ¬ Memᴰ r.runtime.name (names table.records)
    → ¬ Memᴰ r.runtime.pm_id (pm_ids table.records)
    → IsTable (restore r table)
unfolding restore
restore-IsTable r table t s new_name new_id = record {
  sound = All-append IsSound table.records (r ∷ []) t.sound (s, tt);
  distinct_names = Distinct-snoc (λ r. r.runtime.name) table.records r t.distinct_names new_name;
  distinct_ids = Distinct-snoc (λ r. r.runtime.pm_id) table.records r t.distinct_ids new_id;
}

-- Registering a spec in a table of fewer than 2^32 - 1 records, whether its name is known or new,
-- keeps the invariant of the table.
pub upsert-IsTable :
    (spec : AppSpec) (now : ℕ) (table : ProcessTable)
    → IsTable table
    → length table.records < max_u32
    → IsTable (upsert spec now table).0
unfolding upsert new
upsert-IsTable spec now table t room =
    elim (Option-cases (find (has_name spec.name) table.records)) [
      | inl absent ↦ rw (absent, upsert) (unfold restore in added absent)
      | inr (r, found) ↦
          rw (found, upsert) (kept r found (find-some (has_name spec.name) table.records found))
    ]
  where
    fresh : ProcessRecord
    fresh = record { spec = spec; runtime = new (lowest_free_pm_id table) spec.name now }

    added : find (has_name spec.name) table.records ≡ none → IsTable (restore fresh table)
    added absent =
        restore-IsTable fresh table t (new-IsCoherent _ spec.name now, refl)
          (names-ne spec.name table.records absent) (lowest_free_pm_id_lem table room).1

    kept :
        (r : ProcessRecord)
        → find (has_name spec.name) table.records ≡ some r
        → Memᴰ r table.records × (has_name spec.name r ≡ true)
        → IsTable (write_record (has_name spec.name) (record r { spec = spec }) table)
    kept r found (m, named) =
        write_record-IsTable (has_name spec.name) r (record r { spec = spec }) table t found refl
          refl ((All_at IsSound table.records t.sound m).0, sym ((text_eq_iff _ _).0 named))
