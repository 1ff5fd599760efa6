-- ===== src/Usecases/Table/Finds.antt =====
-- usecases/src/table.rs: what `find_by_name` finds after a write through `find_mut`.
use pm.Base.{
  ◌≡◌, refl, sym, subst, ap, Bool, true, false, none, some, Text, arith, List, [], ◌∷◌, Memᴰ, find,
  find-some, find-none_of_mem, ◌++◌, mem-map_of_mem, text_eq, text_eq_iff, text_eq_refl, Bool-cases,
  inl, inr, arith,
}
use mathlib.Core.Option.{some-injective}
use pm.Usecases.Record.{ProcessRecord}
use pm.Usecases.Table.{
  ProcessTable, has_name, find_by_name, replace_first, remove_first, write_record, selects, remove,
  restore, find_record,
}
use pm.Usecases.Selector.{AppSelector, name as by_name}
use pm.Usecases.Table.Invariant.{Distinct, names}
use pm.Usecases.Table.Removal.{remove_first-absent}

find-replace_first :
    (p : ProcessRecord → Bool) (r r' : ProcessRecord) (xs : List ProcessRecord)
    → Distinct (names xs)
    → find p xs ≡ some r
    → r'.runtime.name ≡ r.runtime.name
    → find (has_name r.runtime.name) (replace_first p r' xs) ≡ some r'
unfolding replace_first
find-replace_first p r r' [] d h same = cc
find-replace_first p r r' (x ∷ xs) d h same = elim (Bool-cases (p x)) [
  | inl e ↦ rw (e, replace_first) (here ((text_eq_iff _ _).1 same))
  | inr e ↦
      let h' : find p xs ≡ some r = rw e at h in
      let rest = find-replace_first p r r' xs d.1 h' same in
      rw (e, replace_first)
        (elim (Bool-cases (text_eq x.runtime.name r.runtime.name)) [
          | inl clash ↦ absurd (
              d.0 (
                subst (λ n. Memᴰ n (names xs)) (sym ((text_eq_iff _ _).0 clash))
                  (mem-map_of_mem (λ y. y.runtime.name) xs (find-some p xs h').0)))
          | inr other ↦ ground (arith, rest)
        ])
]
  where
    here :
        text_eq r'.runtime.name r.runtime.name ≡ true
        → find (has_name r.runtime.name) (r' ∷ xs) ≡ some r'
    here e = ground arith

-- A record that is written by any test is found by its name afterwards.
pub find_by_name-write_record :
    (p : ProcessRecord → Bool) (r r' : ProcessRecord) (table : ProcessTable)
    → Distinct (names table.records)
    → find p table.records ≡ some r
    → r'.runtime.name ≡ r.runtime.name
    → find_by_name r.runtime.name (write_record p r' table) ≡ some r'
unfolding find_by_name write_record
find_by_name-write_record p r r' table d h same = find-replace_first p r r' table.records d h same

module _ (p : ProcessRecord → Bool) (r : ProcessRecord) (n : Text)
    (other : text_eq r.runtime.name n ≡ false) where
  find_other-replace_first :
      (r' : ProcessRecord) (xs : List ProcessRecord)
      → find p xs ≡ some r
      → r'.runtime.name ≡ r.runtime.name
      → find (has_name n) (replace_first p r' xs) ≡ find (has_name n) xs
  unfolding replace_first
  find_other-replace_first r' [] h same = refl
  find_other-replace_first r' (x ∷ xs) h same = elim (Bool-cases (p x)) [
    | inl e ↦
        let here : x ≡ r = some-injective x r (rw e at h) in
        rw (e, replace_first) (skip (ap (λ y. y.runtime.name) here))
    | inr e ↦
        let rest = find_other-replace_first r' xs (rw e at h) same in
        rw (e, replace_first) (ground (arith, rest))
  ]
    where
      skip :
          x.runtime.name ≡ r.runtime.name → find (has_name n) (r' ∷ xs) ≡ find (has_name n) (x ∷ xs)
      skip e =
          let old : text_eq x.runtime.name n ≡ false = rw e other in
          let new_name : text_eq r'.runtime.name n ≡ false = rw same other in ground arith

  find_other-remove_first :
      (xs : List ProcessRecord)
      → find p xs ≡ some r
      → find (has_name n) (remove_first p xs) ≡ find (has_name n) xs
  unfolding remove_first
  find_other-remove_first [] h = refl
  find_other-remove_first (x ∷ xs) h = elim (Bool-cases (p x)) [
    | inl e ↦
        let here : x ≡ r = some-injective x r (rw e at h) in
        let old : text_eq x.runtime.name n ≡ false = rw here other in
        rw (e, remove_first) (ground arith)
    | inr e ↦
        let rest = find_other-remove_first xs (rw e at h) in
        rw (e, remove_first) (ground (arith, rest))
  ]

  find_other-append :
      (xs : List ProcessRecord) → find (has_name n) (xs ++ r ∷ []) ≡ find (has_name n) xs
  find_other-append [] = ground arith
  find_other-append (x ∷ xs) = ground (arith, find_other-append xs)

-- A removed name is not found any more.
find_removed :
    (p : ProcessRecord → Bool) (r : ProcessRecord) (xs : List ProcessRecord)
    → Distinct (names xs)
    → find p xs ≡ some r
    → find (has_name r.runtime.name) (remove_first p xs) ≡ none
find_removed p r xs d h = find-none_of_mem (has_name r.runtime.name) (remove_first p xs) (λ x m.
    elim (Bool-cases (has_name r.runtime.name x)) [
      | inl e ↦ absurd (
          remove_first-absent p (λ y. y.runtime.name) xs d h
            (subst (λ t. Memᴰ t (names (remove_first p xs))) ((text_eq_iff _ _).0 e)
              (mem-map_of_mem (λ y. y.runtime.name) (remove_first p xs) m)))
      | inr e ↦ e
    ])

-- What is found by another name than the written, removed or restored record's does not change.
module _ (r : ProcessRecord) (n : Text) (other : text_eq r.runtime.name n ≡ false) where
  pub find_other-write_record :
      (p : ProcessRecord → Bool) (r' : ProcessRecord) (table : ProcessTable)
      → find p table.records ≡ some r
      → r'.runtime.name ≡ r.runtime.name
      → find_by_name n (write_record p r' table) ≡ find_by_name n table
  unfolding find_by_name write_record
  find_other-write_record p r' table h same =
      find_other-replace_first p r n other r' table.records h same

  pub find_other-remove :
      (selector : AppSelector) (table : ProcessTable)
      → (remove selector table).1 ≡ some r
      → find_by_name n (remove selector table).0 ≡ find_by_name n table
  unfolding find_by_name remove find_record
  find_other-remove selector table h =
      find_other-remove_first (selects selector) r n other table.records h

  pub find_other-restore :
      (table : ProcessTable) → find_by_name n (restore r table) ≡ find_by_name n table
  unfolding find_by_name restore
  find_other-restore table = find_other-append (λ x. false) r n other table.records

-- A removed record is not found by its name any more.
pub find_by_name-remove :
    (selector : AppSelector) (table : ProcessTable) (r : ProcessRecord)
    → Distinct (names table.records)
    → (remove selector table).1 ≡ some r
    → find_by_name r.runtime.name (remove selector table).0 ≡ none
unfolding find_by_name remove find_record
find_by_name-remove selector table r d h = find_removed (selects selector) r table.records d h

find-replace_first_self :
    (p : ProcessRecord → Bool) (r r' : ProcessRecord) (xs : List ProcessRecord)
    → find p xs ≡ some r
    → p r' ≡ true
    → find p (replace_first p r' xs) ≡ some r'
unfolding replace_first
find-replace_first_self p r r' [] h e = cc
find-replace_first_self p r r' (x ∷ xs) h e = ground (arith, find-replace_first_self p r r' xs)

-- What is written by a selector is what the selector removes.
pub remove-write_record :
    (selector : AppSelector) (r r' : ProcessRecord) (table : ProcessTable)
    → find (selects selector) table.records ≡ some r
    → selects selector r' ≡ true
    → (remove selector (write_record (selects selector) r' table)).1 ≡ some r'
unfolding remove write_record find_record
remove-write_record selector r r' table h e =
    find-replace_first_self (selects selector) r r' table.records h e

find-by_name :
    (p : ProcessRecord → Bool) (r : ProcessRecord) (xs : List ProcessRecord)
    → Distinct (names xs)
    → find p xs ≡ some r
    → find (selects (by_name r.runtime.name)) xs ≡ some r
find-by_name p r [] d h = cc
find-by_name p r (x ∷ xs) d h = elim (Bool-cases (p x)) [
  | inl e ↦
      let here : x ≡ r = some-injective x r (rw e at h) in
      let named : text_eq r.runtime.name x.runtime.name ≡ true =
        rw here (text_eq_refl r.runtime.name) in
      ground (arith, here)
  | inr e ↦
      let h' : find p xs ≡ some r = rw e at h in
      elim (Bool-cases (text_eq r.runtime.name x.runtime.name)) [
        | inl clash ↦ absurd (
            d.0 (
              subst (λ n. Memᴰ n (names xs)) ((text_eq_iff _ _).0 clash)
                (mem-map_of_mem (λ y. y.runtime.name) xs (find-some p xs h').0)))
        | inr other ↦ ground (arith, find-by_name p r xs d.1 h')
      ]
]

-- A record that any selector finds is found by its name.
pub find_record-by_name :
    (selector : AppSelector) (r : ProcessRecord) (table : ProcessTable)
    → Distinct (names table.records)
    → find_record selector table ≡ some r
    → find_record (by_name r.runtime.name) table ≡ some r
unfolding find_record
find_record-by_name selector r table d h = find-by_name (selects selector) r table.records d h
