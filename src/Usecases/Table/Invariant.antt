-- ===== src/Usecases/Table/Invariant.antt =====
-- What holds of the process table between two operations, and what the writes of the table keep.
use pm.Base.{
  ◌≡◌, sym, ap, ◌∙◌, subst, Bool, true, inl, inr, none, some, List, [], ◌∷◌, map, Memᴰ,
  mem-map_of_mem, find, All, Text, Bool-cases, arith,
}
use pm.Entities.Runtime.{ProcessRuntime, is_none}
use pm.Entities.Status.{is_settled}
use pm.Usecases.Record.{ProcessRecord}
use pm.Usecases.Table.{ProcessTable, pm_ids, replace_first, write_record}

-- A record that agrees with itself: a process id exactly while the service is not settled.
pub record IsCoherent (r : ProcessRuntime) : Type 0 where
  pub pid : is_none r.pid ≡ is_settled r.status
  pub no_start : is_settled r.status ≡ true → r.started_at_ms ≡ none
  pub no_identity : is_settled r.status ≡ true → r.identity ≡ none

abbrev pub Distinct {ℓ} : {A : Type ℓ} → List A → Type ℓ
Distinct [] = Unit
Distinct (x ∷ xs) = (¬ Memᴰ x xs) × Distinct xs

abbrev pub names : List ProcessRecord → List Text
names records = map (λ r. r.runtime.name) records

abbrev pub IsSound : ProcessRecord → Type 0
IsSound r = IsCoherent r.runtime × (r.spec.name ≡ r.runtime.name)

pub record IsTable (table : ProcessTable) : Type 0 where
  pub sound : All IsSound table.records
  pub distinct_names : Distinct (names table.records)
  pub distinct_ids : Distinct (pm_ids table.records)

module _ (p : ProcessRecord → Bool) {r r' : ProcessRecord} where
  map-replace_first {ℓ} :
      {B : Type ℓ} (f : ProcessRecord → B) (xs : List ProcessRecord)
      → find p xs ≡ some r
      → f r' ≡ f r
      → map f (replace_first p r' xs) ≡ map f xs
  unfolding replace_first
  map-replace_first f [] h e = cc
  map-replace_first f (x ∷ xs) h e = ground (arith, map-replace_first f xs)

All-replace_first {ℓ} :
    (p : ProcessRecord → Bool) {r' : ProcessRecord} (P : ProcessRecord → Type ℓ)
    (xs : List ProcessRecord)
    → All P xs
    → P r'
    → All P (replace_first p r' xs)
unfolding replace_first
All-replace_first p P [] a h = tt
All-replace_first p P (x ∷ xs) a h = elim (Bool-cases (p x)) [
  | inl e ↦ rw (e, replace_first) (h, a.1)
  | inr e ↦ rw (e, replace_first) (a.0, All-replace_first p P xs a.1 h)
]

-- A write that keeps the record's name keeps the list of names.
pub names-write_record :
    (p : ProcessRecord → Bool) (r r' : ProcessRecord) (table : ProcessTable)
    → find p table.records ≡ some r
    → r'.runtime.name ≡ r.runtime.name
    → names (write_record p r' table).records ≡ names table.records
unfolding write_record
names-write_record p r r' table found same =
    map-replace_first p (λ x. x.runtime.name) table.records found same

-- Records of one name in a table of distinct names are one record.
pub Distinct-unique {ℓ} :
    {B : Type ℓ} (f : ProcessRecord → B) {a b : ProcessRecord} (xs : List ProcessRecord)
    → Distinct (map f xs)
    → Memᴰ a xs
    → Memᴰ b xs
    → f a ≡ f b
    → a ≡ b
Distinct-unique f [] d m n e = elim m [ ]
Distinct-unique f (x ∷ xs) d (Memᴰ.head p) (Memᴰ.head q) e = p ∙ sym q
Distinct-unique f (x ∷ xs) d (Memᴰ.head p) (Memᴰ.tail n) e =
    absurd (d.0 (subst (λ y. Memᴰ y (map f xs)) (sym e ∙ ap f p) (mem-map_of_mem f xs n)))
Distinct-unique f (x ∷ xs) d (Memᴰ.tail m) (Memᴰ.head q) e =
    absurd (d.0 (subst (λ y. Memᴰ y (map f xs)) (e ∙ ap f q) (mem-map_of_mem f xs m)))
Distinct-unique f (x ∷ xs) d (Memᴰ.tail m) (Memᴰ.tail n) e = Distinct-unique f xs d.1 m n e

-- A write that keeps the record's id and name, and leaves it sound, keeps the invariant.
pub write_record-IsTable :
    (p : ProcessRecord → Bool) (r r' : ProcessRecord) (table : ProcessTable)
    → IsTable table
    → find p table.records ≡ some r
    → r'.runtime.pm_id ≡ r.runtime.pm_id
    → r'.runtime.name ≡ r.runtime.name
    → IsSound r'
    → IsTable (write_record p r' table)
unfolding write_record
write_record-IsTable p r r' table t found same_id same_name s = record {
  sound = All-replace_first p IsSound table.records t.sound s;
  distinct_names =
      subst Distinct (sym (map-replace_first p (λ x. x.runtime.name) table.records found same_name))
        t.distinct_names;
  distinct_ids =
      subst Distinct (sym (map-replace_first p (λ x. x.runtime.pm_id) table.records found same_id))
        t.distinct_ids;
}
