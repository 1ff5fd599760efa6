-- ===== src/Usecases/Table/Ids.antt =====
-- The id given to a new record is the least that is not taken.
use pm.Base.{
  ℕ, suc, ◌+◌, ◌≤◌, ◌<◌, ◌≡◌, refl, ◌≢◌, inl, inr, List, [], ◌∷◌, Memᴰ, length, length-map, All,
  All_at, max_u32, ltb, leb, ◌==◌, Bool-cases, ℕ_discrete, arith,
}
use pm.Usecases.Table.{
  ProcessTable, insert_sorted, sort, free_from, pm_ids, lowest_pm_id, lowest_free_pm_id,
}

abbrev Sorted : List ℕ → Type 0
Sorted [] = Unit
Sorted (n ∷ ns) = All (λ m. n ≤ m) ns × Sorted ns

All-insert_sorted :
    (b n : ℕ) (ms : List ℕ) → b ≤ n → All (λ m. b ≤ m) ms → All (λ m. b ≤ m) (insert_sorted n ms)
unfolding insert_sorted
All-insert_sorted b n [] h k = (h, tt)
All-insert_sorted b n (m ∷ ms) h k = elim (Bool-cases (leb n m)) [
  | inl e ↦ rw (e, insert_sorted) (h, k)
  | inr e ↦ rw (e, insert_sorted) (k.0, All-insert_sorted b n ms h k.1)
]

All-le_trans : (a b : ℕ) (ms : List ℕ) → a ≤ b → All (λ m. b ≤ m) ms → All (λ m. a ≤ m) ms
All-le_trans a b [] h k = tt
All-le_trans a b (m ∷ ms) h k = (omega arith, All-le_trans a b ms h k.1)

insert_sorted-Sorted : (n : ℕ) (ms : List ℕ) → Sorted ms → Sorted (insert_sorted n ms)
unfolding insert_sorted
insert_sorted-Sorted n [] h = (tt, tt)
insert_sorted-Sorted n (m ∷ ms) h = elim (Bool-cases (leb n m)) [
  | inl e ↦ rw (e, insert_sorted) ((ground arith, All-le_trans n m ms (ground arith) h.0), h)
  | inr e ↦
      rw (e, insert_sorted)
        (All-insert_sorted m n ms (ground arith) h.0, insert_sorted-Sorted n ms h.1)
]

sort-Sorted : (ns : List ℕ) → Sorted (sort ns)
unfolding sort
sort-Sorted [] = tt
sort-Sorted (n ∷ ns) = insert_sorted-Sorted n (sort ns) (sort-Sorted ns)

length-insert_sorted : (n : ℕ) (ms : List ℕ) → length (insert_sorted n ms) ≡ suc (length ms)
unfolding insert_sorted
length-insert_sorted n [] = refl
length-insert_sorted n (m ∷ ms) = ground (arith, length-insert_sorted n ms)

length-sort : (ns : List ℕ) → length (sort ns) ≡ length ns
unfolding sort
length-sort [] = refl
length-sort (n ∷ ns) = omega (arith, length-insert_sorted n (sort ns), length-sort ns)

mem-insert_sorted : {a : ℕ} (n : ℕ) (ms : List ℕ) → Memᴰ a (n ∷ ms) → Memᴰ a (insert_sorted n ms)
unfolding insert_sorted
mem-insert_sorted n [] m = m
mem-insert_sorted {a} n (k ∷ ms) m = elim (Bool-cases (leb n k)) [
  | inl e ↦ rw (e, insert_sorted) m
  | inr e ↦ rw (e, insert_sorted) (split m (λ l. mem-insert_sorted n ms l))
]
  where
    split :
        Memᴰ a (n ∷ k ∷ ms)
        → (Memᴰ a (n ∷ ms) → Memᴰ a (insert_sorted n ms))
        → Memᴰ a (k ∷ insert_sorted n ms)
    split (Memᴰ.head e) f = Memᴰ.tail (f (Memᴰ.head e))
    split (Memᴰ.tail (Memᴰ.head e)) f = Memᴰ.head e
    split (Memᴰ.tail (Memᴰ.tail l)) f = Memᴰ.tail (f (Memᴰ.tail l))

mem-of_insert_sorted : {a : ℕ} (n : ℕ) (ms : List ℕ) → Memᴰ a (insert_sorted n ms) → Memᴰ a (n ∷ ms)
unfolding insert_sorted
mem-of_insert_sorted n [] m = m
mem-of_insert_sorted {a} n (k ∷ ms) m = elim (Bool-cases (leb n k)) [
  | inl e ↦ rw (e, insert_sorted) at m
  | inr e ↦ split (rw (e, insert_sorted) at m) (λ l. mem-of_insert_sorted n ms l)
]
  where
    after : Memᴰ a (n ∷ ms) → Memᴰ a (n ∷ k ∷ ms)
    after (Memᴰ.head e) = Memᴰ.head e
    after (Memᴰ.tail l) = Memᴰ.tail (Memᴰ.tail l)

    split :
        Memᴰ a (k ∷ insert_sorted n ms)
        → (Memᴰ a (insert_sorted n ms) → Memᴰ a (n ∷ ms))
        → Memᴰ a (n ∷ k ∷ ms)
    split (Memᴰ.head e) f = Memᴰ.tail (Memᴰ.head e)
    split (Memᴰ.tail l) f = after (f l)

mem-sort : {a : ℕ} (ns : List ℕ) → Memᴰ a ns → Memᴰ a (sort ns)
unfolding sort
mem-sort [] m = m
mem-sort (n ∷ ns) (Memᴰ.head e) = mem-insert_sorted n (sort ns) (Memᴰ.head e)
mem-sort (n ∷ ns) (Memᴰ.tail m) = mem-insert_sorted n (sort ns) (Memᴰ.tail (mem-sort ns m))

mem-of_sort : {a : ℕ} (ns : List ℕ) → Memᴰ a (sort ns) → Memᴰ a ns
unfolding sort
mem-of_sort [] m = m
mem-of_sort {a} (n ∷ ns) m = split (mem-of_insert_sorted n (sort ns) m) (λ l. mem-of_sort ns l)
  where
    split : Memᴰ a (n ∷ sort ns) → (Memᴰ a (sort ns) → Memᴰ a ns) → Memᴰ a (n ∷ ns)
    split (Memᴰ.head e) f = Memᴰ.head e
    split (Memᴰ.tail l) f = Memᴰ.tail (f l)

-- What the loop returns on a sorted list, while the candidate cannot pass the maximum.
record IsFree (c r : ℕ) (taken : List ℕ) : Type 0 where
  above : c ≤ r
  small : r ≤ c + length taken
  free : ¬ Memᴰ r taken
  tight : (n : ℕ) → c ≤ n → n < r → Memᴰ n taken

free_from-IsFree :
    (c : ℕ) (taken : List ℕ)
    → Sorted taken
    → c + length taken ≤ max_u32
    → IsFree c (free_from c taken) taken
unfolding free_from
free_from-IsFree c [] s room = record {
  above = omega arith;
  small = omega arith;
  free = λ m. elim m [ ];
  tight = λ n lo hi. absurd (omega arith);
}
free_from-IsFree c (used ∷ taken) s room = elim (Bool-cases (ltb c used)) [
  | inl before ↦ rw (before, free_from) (gap (ground arith))
  | inr after ↦ elim (Bool-cases (used == c)) [
    | inl same ↦
        let moved : free_from c (used ∷ taken) ≡ free_from (c + 1) taken = ground arith in
        rw moved (bump (ground arith) (free_from-IsFree (c + 1) taken s.1 (omega arith)))
    | inr other ↦
        let kept : free_from c (used ∷ taken) ≡ free_from c taken = ground arith in
        rw kept (skip (ground arith) (free_from-IsFree c taken s.1 (omega arith)))
  ]
]
  where
    not_later : c < used → ¬ Memᴰ c (used ∷ taken)
    not_later lt (Memᴰ.head e) = absurd (omega arith)
    not_later lt (Memᴰ.tail m) = absurd (omega (arith, All_at (λ k. used ≤ k) taken s.0 m))

    gap : c < used → IsFree c c (used ∷ taken)
    gap lt = record {
      above = omega arith;
      small = omega arith;
      free = not_later lt;
      tight = λ n lo hi. absurd (omega arith);
    }

    not_here : {r : ℕ} → r ≢ used → ¬ Memᴰ r taken → ¬ Memᴰ r (used ∷ taken)
    not_here differs f (Memᴰ.head e) = differs e
    not_here differs f (Memᴰ.tail m) = f m

    first :
        {r : ℕ}
        → used ≡ c
        → ((n : ℕ) → c + 1 ≤ n → n < r → Memᴰ n taken)
        → (n : ℕ) → c ≤ n
        → n < r
        → Memᴰ n (used ∷ taken)
    first same f n lo hi = elim (ℕ_discrete n used) [
      | yes e ↦ Memᴰ.head e
      | no ne ↦ Memᴰ.tail (f n (omega arith) hi)
    ]

    bump : {r : ℕ} → used ≡ c → IsFree (c + 1) r taken → IsFree c r (used ∷ taken)
    bump same f = record {
      above = omega (arith, f.above);
      small = omega (arith, f.small);
      free = not_here (λ e. omega (arith, f.above)) f.free;
      tight = first same f.tight;
    }

    skip : {r : ℕ} → used < c → IsFree c r taken → IsFree c r (used ∷ taken)
    skip lt f = record {
      above = f.above;
      small = omega (arith, f.small);
      free = not_here (λ e. omega (arith, f.above)) f.free;
      tight = λ n lo hi. Memᴰ.tail (f.tight n lo hi);
    }

-- In a table of fewer than 2^32 - 1 records, the id that `upsert` gives to a new record is at
-- least 1, is no record's id, and is the least such: every id from 1 up to it is taken.
pub lowest_free_pm_id_lem :
    (table : ProcessTable)
    → length table.records < max_u32
    → (1 ≤ lowest_free_pm_id table)
      × (¬ Memᴰ (lowest_free_pm_id table) (pm_ids table.records))
      × ((n : ℕ) → 1 ≤ n → n < lowest_free_pm_id table → Memᴰ n (pm_ids table.records))
unfolding lowest_free_pm_id
lowest_free_pm_id_lem table h =
    let ids = pm_ids table.records in
    let same = length-sort ids in
    let mapped = length-map (λ r. r.runtime.pm_id) table.records in
    let f = free_from-IsFree lowest_pm_id (sort ids) (sort-Sorted ids) (omega arith) in
    (f.above, λ m. f.free (mem-sort ids m), λ n lo hi. mem-of_sort ids (f.tight n lo hi))
