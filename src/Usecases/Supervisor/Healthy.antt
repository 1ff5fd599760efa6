-- ===== src/Usecases/Supervisor/Healthy.antt =====
-- supervisor_ready.rs: every waiting service has a record, and the loop of `fail_downstream` ends.
use pm.Base.{
  ◌+◌, ◌≤◌, ◌≡◌, refl, sym, ◌∙◌, subst, Bool, not, some, List, [], ◌∷◌, length, length-filter,
  All-filter, reverse, is_empty, Memᴰ, mem-map_of_mem, All, All-of_mem, All_at, mem-reverse, find,
  find-some, Text, text_eq, text_eq_iff, Bool-cases, Option-cases, inl, inr, arith,
}
use pm.Usecases.Lifecycle.Records.{Keeps, mark_errored-Keeps}
use pm.Usecases.Lifecycle.Steps.{write-IsTable}
use pm.Entities.Runtime.{mark_exited}
use pm.Entities.Status.{errored, is_settled}
use pm.Usecases.Record.{ProcessRecord}
use pm.Usecases.Supervisor.Waiters.{
  Waiting, waiting_count, waiters_of, retain_others, forget_waiter, mark_errored_if_settled,
}
use pm.Usecases.Selector.{name as by_name}
use pm.Usecases.Table.{ProcessTable, selects, has_name, find_record, find_by_name, write_record}
use pm.Usecases.Table.Growth.{names-ne}
use pm.Usecases.Table.Invariant.{IsTable, IsSound, names, names-write_record}
use pm.Usecases.TimerState.{get, delete}

abbrev pub Known : List Text → List Text → Type 0
Known ns waiting = All (λ n. Memᴰ n ns) waiting

-- The table holds its invariant and these names, and every waiting service is among them.
pub record IsHealthy (ns : List Text) (table : ProcessTable) (waiters : Waiting) : Type 0 where
  pub is_table : IsTable table
  pub has_names : names table.records ≡ ns
  pub known : All (λ e. Known ns e.1) waiters

module _ {ns : List Text} {table : ProcessTable} {waiters : Waiting} where
  pub known-found :
      {name : Text}
      → IsHealthy ns table waiters
      → Memᴰ name ns
      → (r : ProcessRecord) × (find_by_name name table ≡ some r)
  unfolding find_by_name
  known-found {name} h m = elim (Option-cases (find (has_name name) table.records)) [
    | inl absent ↦
        absurd (names-ne name table.records absent (subst (λ xs. Memᴰ name xs) (sym h.has_names) m))
    | inr found ↦ found
  ]

  pub found-known :
      {name : Text} {r : ProcessRecord}
      → IsHealthy ns table waiters
      → find_by_name name table ≡ some r
      → Memᴰ name ns
  unfolding find_by_name
  found-known {name} {r} h found =
      let (m, e) = find-some (has_name name) table.records found in
      subst (λ xs. Memᴰ name xs) h.has_names
        (subst (λ n. Memᴰ n (names table.records)) ((text_eq_iff _ _).0 e)
          (mem-map_of_mem (λ y. y.runtime.name) table.records m))

  -- The record that a selector by name finds has this name, which is known.
  pub selected-known :
      {name : Text} {r : ProcessRecord}
      → IsHealthy ns table waiters
      → find_record (by_name name) table ≡ some r
      → (r.runtime.name ≡ name) × Memᴰ r.runtime.name ns
  unfolding find_record
  selected-known {name} {r} h found =
      let (m, e) = find-some (selects (by_name name)) table.records found in
      (
        sym ((text_eq_iff _ _).0 e),
        subst (λ xs. Memᴰ r.runtime.name xs) h.has_names
            (mem-map_of_mem (λ y. y.runtime.name) table.records m),
      )

  pub found-IsSound :
      (name : Text) {r : ProcessRecord}
      → IsHealthy ns table waiters
      → find_by_name name table ≡ some r
      → IsSound r
  unfolding find_by_name
  found-IsSound name h found =
      All_at IsSound table.records h.is_table.sound
        (find-some (has_name name) table.records found).0

  pub write_selected-IsHealthy :
      (p : ProcessRecord → Bool) (r r' : ProcessRecord)
      → IsHealthy ns table waiters
      → find p table.records ≡ some r
      → Keeps r r'
      → IsHealthy ns (write_record p r' table) waiters
  write_selected-IsHealthy p r r' h found k = record {
    is_table = write-IsTable p r r' table h.is_table found k;
    has_names = names-write_record p r r' table found k.1 ∙ h.has_names;
    known = h.known;
  }

  pub write-IsHealthy :
      (name : Text) (r r' : ProcessRecord)
      → IsHealthy ns table waiters
      → find_by_name name table ≡ some r
      → Keeps r r'
      → IsHealthy ns (write_record (has_name name) r' table) waiters
  unfolding find_by_name
  write-IsHealthy name r r' h found k = write_selected-IsHealthy (has_name name) r r' h found k

  pub mark_errored-IsHealthy :
      {name : Text}
      → IsHealthy ns table waiters
      → Memᴰ name ns
      → (table' : ProcessTable) × (mark_errored_if_settled name table ≡ some table')
        × IsHealthy ns table' waiters
  unfolding mark_errored_if_settled
  mark_errored-IsHealthy {name} h m =
      let (r, found) = known-found h m in
      let r' : ProcessRecord = record r { runtime = mark_exited errored r.runtime } in
      elim (Bool-cases (is_settled r.runtime.status)) [
        | inl e ↦ (
          write_record (has_name name) r' table,
          rw (found, mark_errored_if_settled) (rw e refl),
          write-IsHealthy name r r' h found (mark_errored-Keeps r),
        )
        | inr e ↦ (table, rw (found, mark_errored_if_settled) (rw e refl), h)
      ]

-- Forgetting a waiter makes nobody wait.
pub forget_waiter-count :
    (name : Text) (m : Waiting) → waiting_count (forget_waiter name m) ≤ waiting_count m
unfolding waiting_count forget_waiter retain_others
forget_waiter-count name [] = omega arith
forget_waiter-count name ((d, ms) ∷ m) =
    ground (arith, forget_waiter-count name m, length-filter (λ n. not (text_eq n name)) ms)

pub delete-count :
    (name : Text) (m : Waiting)
    → length (waiters_of name m) + waiting_count (delete name m) ≤ waiting_count m
unfolding waiting_count waiters_of delete get
delete-count name [] = omega arith
delete-count name ((d, ms) ∷ m) = ground (arith, delete-count name m)

module _ (ns : List Text) where
  abbrev pub AllKnown : Waiting → Type 0
  AllKnown m = All (λ e. Known ns e.1) m

  pub forget_waiter-known :
      (name : Text) (m : Waiting) → AllKnown m → AllKnown (forget_waiter name m)
  unfolding forget_waiter retain_others
  forget_waiter-known name [] a = tt
  forget_waiter-known name ((d, ms) ∷ m) a =
      let kept = All-filter (λ n. Memᴰ n ns) (λ n. not (text_eq n name)) ms a.0 in
      elim (Bool-cases (not (is_empty (retain_others name ms)))) [
        | inl e ↦ rw (e, forget_waiter) (kept, forget_waiter-known name m a.1)
        | inr e ↦ rw (e, forget_waiter) (forget_waiter-known name m a.1)
      ]

  pub delete-known : (name : Text) (m : Waiting) → AllKnown m → AllKnown (delete name m)
  unfolding delete
  delete-known name [] a = tt
  delete-known name ((d, ms) ∷ m) a = elim (Bool-cases (text_eq d name)) [
    | inl e ↦ rw (e, delete) (delete-known name m a.1)
    | inr e ↦ rw (e, delete) (a.0, delete-known name m a.1)
  ]

  pub waiters_of-Known : (name : Text) (m : Waiting) → AllKnown m → Known ns (waiters_of name m)
  unfolding waiters_of get
  waiters_of-Known name [] a = tt
  waiters_of-Known name ((d, ms) ∷ m) a = elim (Bool-cases (text_eq d name)) [
    | inl e ↦ rw (e, waiters_of, get) a.0
    | inr e ↦ rw (e, waiters_of, get) (waiters_of-Known name m a.1)
  ]

  pub reverse-Known : (ms : List Text) → Known ns ms → Known ns (reverse ms)
  reverse-Known ms a =
      All-of_mem (λ n. Memᴰ n ns) (reverse ms)
        (λ n m. All_at (λ n. Memᴰ n ns) ms a (mem-reverse ms m))
