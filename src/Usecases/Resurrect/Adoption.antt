-- ===== src/Usecases/Resurrect/Adoption.antt =====
-- resurrect.rs: what the takeover writes into a record, and the process that a service keeps.
use pm.Base.{
  ℕ, ◌≡◌, refl, sym, subst, false, Option, some, List, [], ◌∷◌, map, All, Text, Bool-cases, inl,
  inr, arith, ap, ◌∙◌, true, find-some, text_eq, text_eq_iff,
}
use pm.Entities.Runtime.{mark_exited, mark_online, is_none}
use pm.Entities.Status.{is_settled}
use pm.Usecases.Lifecycle.Records.{Keeps}
use pm.Usecases.Record.{ProcessRecord, awaits_ready}
use pm.Usecases.Resurrect.{Verdicts, forget_unless_adopted, remembered, reclaimed, is_adopted}
use pm.Usecases.Table.{
  from_records, remember_boot, pm_ids, ProcessTable, has_name, find_by_name, write_record,
}
use pm.Usecases.Table.Invariant.{Distinct, IsTable, IsSound, names}
use mathlib.Core.Option.{some-injective}
use pm.Usecases.Table.Finds.{find_by_name-write_record, find_other-write_record}
use pm.Usecases.TimerState.{get}

pub forget_unless_adopted-Keeps :
    (verdicts : Verdicts) (r : ProcessRecord) → Keeps r (forget_unless_adopted verdicts r)
unfolding forget_unless_adopted mark_exited
forget_unless_adopted-Keeps verdicts r = ground arith

module _ (f : ProcessRecord → ProcessRecord) (k : (r : ProcessRecord) → Keeps r (f r)) where
  pub names-map : (xs : List ProcessRecord) → names (map f xs) ≡ names xs
  names-map [] = refl
  names-map (x ∷ xs) = rw ((k x).1) (rw (names-map xs) refl)

  ids-map : (xs : List ProcessRecord) → pm_ids (map f xs) ≡ pm_ids xs
  ids-map [] = refl
  ids-map (x ∷ xs) = rw ((k x).0) (rw (ids-map xs) refl)

  IsSound-map : (xs : List ProcessRecord) → All IsSound xs → All IsSound (map f xs)
  IsSound-map [] a = tt
  IsSound-map (x ∷ xs) a = ((k x).2 a.0, IsSound-map xs a.1)

pub remembered-IsTable :
    (verdicts : Verdicts) (boot : Option Text) (stored : List ProcessRecord)
    → IsTable (from_records stored)
    → IsTable (remembered verdicts boot stored)
unfolding remembered remember_boot from_records
remembered-IsTable verdicts boot stored t =
    let f = forget_unless_adopted verdicts in
    let k = forget_unless_adopted-Keeps verdicts in
    record {
      sound = IsSound-map f k stored t.sound;
      distinct_names = subst Distinct (sym (names-map f k stored)) t.distinct_names;
      distinct_ids = subst Distinct (sym (ids-map f k stored)) t.distinct_ids;
    }

pub reclaimed-pid : (r : ProcessRecord) → (reclaimed r).runtime.pid ≡ r.runtime.pid
unfolding reclaimed mark_online
reclaimed-pid r = ground arith

-- A record with a process id stays sound when its service is adopted.
pub reclaimed-Keeps :
    (r : ProcessRecord) (pid : ℕ) → IsSound r → r.runtime.pid ≡ some pid → Keeps r (reclaimed r)
unfolding reclaimed mark_online
reclaimed-Keeps r pid s live =
    let settled : is_none r.runtime.pid ≡ is_settled r.runtime.status = s.0.pid in
    let up : is_settled r.runtime.status ≡ false = ground arith in
    elim (Bool-cases (awaits_ready r)) [
      | inl e ↦ rw (e, reclaimed) (refl, refl, λ t. t)
      | inr e ↦ rw (e, reclaimed) (refl, refl, λ t. ground arith)
    ]

pub reclaimed-names :
    (r : ProcessRecord)
    → (reclaimed r).runtime.name ≡ r.runtime.name
      × ((reclaimed r).runtime.identity ≡ r.runtime.identity)
unfolding reclaimed mark_online
reclaimed-names r = (ground arith, ground arith)

pub forgets_nothing :
    (verdicts : Verdicts) (r : ProcessRecord)
    → is_adopted (get r.runtime.name verdicts) ≡ true
    → ((forget_unless_adopted verdicts r).runtime.pid ≡ r.runtime.pid)
      × ((forget_unless_adopted verdicts r).runtime.identity ≡ r.runtime.identity)
unfolding forget_unless_adopted
forgets_nothing verdicts r e = (ground arith, ground arith)

-- The table still has the stored record's service, under the process that the record names.
pub record KeepsProcess (table : ProcessTable) (r : ProcessRecord) : Type 0 where
  pub current : ProcessRecord
  pub found : find_by_name r.runtime.name table ≡ some current
  pub same_pid : current.runtime.pid ≡ r.runtime.pid
  pub same_identity : current.runtime.identity ≡ r.runtime.identity

-- A write of a record under its name keeps the process of a service, if it keeps it when the service
-- is the one written.
pub write-KeepsProcess :
    (name : Text) (y y' r : ProcessRecord) (table : ProcessTable)
    → IsTable table
    → find_by_name name table ≡ some y
    → y'.runtime.name ≡ y.runtime.name
    → (name ≡ r.runtime.name
        → (y'.runtime.pid ≡ y.runtime.pid) × (y'.runtime.identity ≡ y.runtime.identity))
    → KeepsProcess table r
    → KeepsProcess (write_record (has_name name) y' table) r
unfolding find_by_name
write-KeepsProcess name y y' r table t found same kept k =
    let here : y.runtime.name ≡ name =
      (text_eq_iff _ _).0 (find-some (has_name name) table.records found).1 in
    elim (Bool-cases (text_eq y.runtime.name r.runtime.name)) [
      | inr other ↦ record {
        current = k.current;
        found =
            find_other-write_record y r.runtime.name other (has_name name) y' table found same
            ∙ k.found;
        same_pid = k.same_pid;
        same_identity = k.same_identity;
      }
      | inl e ↦
          let named : y.runtime.name ≡ r.runtime.name = (text_eq_iff _ _).0 e in
          let (p, i) = kept (sym here ∙ named) in
          let old : y ≡ k.current =
            some-injective y k.current
              (sym found ∙ ap (λ n. find_by_name n table) (sym here ∙ named) ∙ k.found) in
          record {
            current = y';
            found =
                subst (λ n. find_by_name n (write_record (has_name name) y' table) ≡ some y') named
                  (find_by_name-write_record (has_name name) y y' table t.distinct_names found
                    same);
            same_pid = p ∙ ap (λ x. x.runtime.pid) old ∙ k.same_pid;
            same_identity = i ∙ ap (λ x. x.runtime.identity) old ∙ k.same_identity;
          }
    ]
