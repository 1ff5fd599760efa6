-- ===== src/Usecases/Resurrect/Rounds.antt =====
-- resurrect.rs: the table in the rounds of the takeover.
use pm.Base.{
  ◌≡◌, refl, sym, ap, ◌∙◌, subst, true, false, Option, none, some, List, [], ◌∷◌, map, mem-map,
  mem-map_of_mem, Memᴰ, find-some, Text, text_eq_iff, ok, err, Option-cases, inl, inr,
}
use pm.Usecases.Launch.{fire, launch, launch_record, start_one}
use pm.Usecases.Lifecycle.Records.{launch_record-Keeps}
use pm.Usecases.Ports.{Ports}
use pm.Usecases.Record.{ProcessRecord}
use pm.Usecases.Resurrect.{
  Verdicts, is_adopted, forget_unless_adopted, remembered, reclaimed, adopt_one, recover_one,
  recover_each,
}
use pm.Usecases.Resurrect.Adoption.{
  KeepsProcess, write-KeepsProcess, reclaimed-names, forgets_nothing, forget_unless_adopted-Keeps,
  names-map, remembered-IsTable, reclaimed-pid, reclaimed-Keeps,
}
use pm.Usecases.Resurrect.Judge.{Verdict, adopt, settle, respawn}
use pm.Usecases.Supervisor.Healthy.{IsHealthy, known-found, found-IsSound, write-IsHealthy}
use pm.Usecases.Table.{ProcessTable, from_records, remember_boot, has_name, find_by_name}
use pm.Usecases.Table.Invariant.{IsTable, Distinct-unique, names}
use pm.Usecases.TimerState.{get}
use pm.Usecases.Resurrect.Judged.{HasProcesses}

-- A result, and a table of which `P` holds.
abbrev pub Yields :
    {A W : Type 0} → (ProcessTable → Type 0) → Option (A × ProcessTable × W) → Type 0
Yields P none = ⊥
Yields P (some (a, table, w)) = P table

module _ {W : Type 0} (ports : Ports W) (stored : List ProcessRecord) (verdicts : Verdicts) where
  -- Between two rounds of the takeover: the services are the stored ones, and each that is adopted
  -- keeps its process.
  pub record TakingOver (table : ProcessTable) : Type 0 where
    pub healthy : IsHealthy (names stored) table []
    pub keeps :
        (r : ProcessRecord)
        → Memᴰ r stored
        → is_adopted (get r.runtime.name verdicts) ≡ true
        → KeepsProcess table r

  pub remembered-TakingOver :
      (boot : Option Text)
      → IsTable (from_records stored)
      → TakingOver (remembered verdicts boot stored)
  unfolding remembered remember_boot from_records find_by_name
  remembered-TakingOver boot t =
      let f = forget_unless_adopted verdicts in
      let k = forget_unless_adopted-Keeps verdicts in
      let healthy : IsHealthy (names stored) (remembered verdicts boot stored) [] = record {
        is_table = remembered-IsTable verdicts boot stored t;
        has_names = names-map f k stored;
        known = tt;
      } in
      record {
        healthy = healthy;
        keeps = λ r m e.
            let (y, found) = known-found healthy (mem-map_of_mem (λ x. x.runtime.name) stored m) in
            let (n, here) = find-some (has_name r.runtime.name) (map f stored) found in
            let (x, l, same) = mem-map f stored n in
            let named : x.runtime.name ≡ r.runtime.name =
              sym ((k x).1) ∙ ap (λ z. z.runtime.name) (sym same) ∙ (text_eq_iff _ _).0 here in
            let mine : x ≡ r =
              Distinct-unique (λ z. z.runtime.name) stored t.distinct_names l m named in
            let (pid, identity) = forgets_nothing verdicts r e in
            let is_mine : y ≡ f r = same ∙ ap f mine in
            record {
              current = y;
              found = found;
              same_pid = ap (λ z. z.runtime.pid) is_mine ∙ pid;
              same_identity = ap (λ z. z.runtime.identity) is_mine ∙ identity;
            };
      }

  adopt_one-TakingOver :
      (table : ProcessTable) (name : Text) (expected : Option Text) (w : W)
      → HasProcesses stored verdicts
      → get name verdicts ≡ some (adopt, expected)
      → TakingOver table
      → Yields TakingOver (adopt_one ports table name w)
  unfolding adopt_one
  adopt_one-TakingOver table name expected w live judged t =
      let (r, m, named, (pid, has_pid)) = live name expected judged in
      let adopted : is_adopted (get r.runtime.name verdicts) ≡ true =
        subst (λ n. is_adopted (get n verdicts) ≡ true) (sym named) (rw judged refl) in
      let k = t.keeps r m adopted in
      let found = subst (λ n. find_by_name n table ≡ some k.current) named k.found in
      let runs : k.current.runtime.pid ≡ some pid = k.same_pid ∙ has_pid in
      let still = reclaimed-pid k.current in
      let (same_name, same_identity) = reclaimed-names k.current in
      rw (found, adopt_one)
        (rw (still ∙ runs) (record {
          healthy =
              write-IsHealthy name k.current (reclaimed k.current) t.healthy found
                (reclaimed-Keeps k.current pid (found-IsSound name t.healthy found) runs);
          keeps = λ r' m' e.
              write-KeepsProcess name k.current (reclaimed k.current) r' table t.healthy.is_table
                found same_name (λ here. (still, same_identity)) (t.keeps r' m' e);
        }))

  -- A launch of a service that is not adopted leaves the adopted ones alone.
  launch-TakingOver :
      (table : ProcessTable) (name logs_dir : Text) (w : W)
      → Memᴰ name (names stored)
      → is_adopted (get name verdicts) ≡ false
      → TakingOver table
      → Yields TakingOver (launch ports table name logs_dir fire w)
  unfolding launch
  launch-TakingOver table name logs_dir w m fresh t =
      let (r, found) = known-found t.healthy m in
      let r' = (launch_record ports r name logs_dir fire w).1 in
      let k = launch_record-Keeps ports r name logs_dir fire w in
      rw (found, launch)
        (record {
          healthy = write-IsHealthy name r r' t.healthy found k;
          keeps = λ x l e.
              write-KeepsProcess name r r' x table t.healthy.is_table found k.1
                (λ here.
                  let clash : is_adopted (get name verdicts) ≡ true =
                    subst (λ n. is_adopted (get n verdicts) ≡ true) (sym here) e in
                  cc)
                (t.keeps x l e);
        })

  recover_one-TakingOver :
      (judged : Verdict × Option Text) (name logs_dir : Text) (table : ProcessTable) (w : W)
      → HasProcesses stored verdicts
      → Memᴰ name (names stored)
      → get name verdicts ≡ some judged
      → TakingOver table
      → Yields TakingOver (recover_one ports judged.0 name logs_dir table w)
  unfolding recover_one start_one
  recover_one-TakingOver (adopt, expected) name logs_dir table w live m found t =
      let l = adopt_one-TakingOver table name expected w live found t in
      elim (Option-cases (adopt_one ports table name w)) [
        | inl e ↦ absurd (subst (Yields TakingOver) e l)
        | inr ((o, table', w'), e) ↦
            let l' : TakingOver table' = rw e at l in rw (e, recover_one) l'
      ]
  recover_one-TakingOver (settle stale, expected) name logs_dir table w live m found t = t
  recover_one-TakingOver (respawn change stale, expected) name logs_dir table w live m found t =
      let l = launch-TakingOver table name logs_dir w m (rw found refl) t in
      elim (Option-cases (launch ports table name logs_dir fire w)) [
        | inl e ↦ absurd (subst (Yields TakingOver) e l)
        | inr ((ok o, table', w'), e) ↦
            let l' : TakingOver table' = rw e at l in rw (e, recover_one) l'
        | inr ((err x, table', w'), e) ↦
            let l' : TakingOver table' = rw e at l in rw (e, recover_one) l'
      ]

  pub recover_each-TakingOver :
      (order : List Text) (logs_dir : Text) (table : ProcessTable) (w : W)
      → HasProcesses stored verdicts
      → ((name : Text) → Memᴰ name order → Memᴰ name (names stored))
      → TakingOver table
      → Yields TakingOver (recover_each ports order verdicts logs_dir table w)
  unfolding recover_each
  recover_each-TakingOver [] logs_dir table w live m t = t
  recover_each-TakingOver (name ∷ order) logs_dir table w live m t =
      let rest = λ (table' : ProcessTable) (w' : W) (t' : TakingOver table').
        recover_each-TakingOver order logs_dir table' w' live (λ n k. m n (Memᴰ.tail k)) t' in
      elim (Option-cases (get name verdicts)) [
        | inl absent ↦
            let l = rest table w t in
            elim (Option-cases (recover_each ports order verdicts logs_dir table w)) [
              | inl e ↦ absurd (subst (Yields TakingOver) e l)
              | inr ((os, table', w'), e) ↦
                  let l' : TakingOver table' = rw e at l in rw (absent, recover_each) (rw e l')
            ]
        | inr (judged, found) ↦
            let one =
              recover_one-TakingOver judged name logs_dir table w live (m name (Memᴰ.head refl))
                found t in
            elim (Option-cases (recover_one ports judged.0 name logs_dir table w)) [
              | inl e ↦ absurd (subst (Yields TakingOver) e one)
              | inr ((o, table', w'), e) ↦
                  let t' : TakingOver table' = rw e at one in
                  let l = rest table' w' t' in
                  elim (Option-cases (recover_each ports order verdicts logs_dir table' w')) [
                    | inl g ↦ absurd (subst (Yields TakingOver) g l)
                    | inr ((os, table'', w''), g) ↦
                        let l' : TakingOver table'' = rw g at l in
                        rw (found, recover_each) (rw e (rw g l'))
                  ]
            ]
      ]
