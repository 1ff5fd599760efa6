-- ===== src/Usecases/Supervisor/Waiters.antt =====
-- The waiters of usecases/src/supervisor_ready.rs: who waits for which service, and what becomes of
-- them when it fails. A list that is popped from its end is kept in reverse.
use pm.Base.{
  ℕ, zero, suc, ◌+◌, not, any, filter, is_empty, Option, none, some, List, [], ◌∷◌, ◌++◌, map,
  length, reverse, Bool, Text, text_eq, contains_text, if◌then◌else◌,
}
use pm.Entities.Runtime.{mark_exited}
use pm.Entities.Status.{errored, is_settled}
use pm.Usecases.Record.{ProcessRecord}
use pm.Usecases.Start.{DeferredStart}
use pm.Usecases.Table.{ProcessTable, has_name, find_by_name, write_record}
use pm.Usecases.TimerState.{get, delete}

abbrev pub Waiting : Type 0
Waiting = List (Text × List Text)

-- `entry(dependency).or_default().push(name)`
unfoldable pub add_waiter : Text → Text → Waiting → Waiting
add_waiter dependency name [] = (dependency, name ∷ []) ∷ []
add_waiter dependency name ((d, ns) ∷ rest) =
    if text_eq d dependency
    then (d, ns ++ name ∷ []) ∷ rest
    else (d, ns) ∷ add_waiter dependency name rest

-- The loop over the dependencies of a deferred start, and the one over the deferred starts.
unfoldable pub wait_for : Text → List Text → Waiting → Waiting
unfolding add_waiter
wait_for name [] m = m
wait_for name (dependency ∷ rest) m = wait_for name rest (add_waiter dependency name m)

unfoldable pub defer_starts : List DeferredStart → Waiting → Waiting
unfolding wait_for
defer_starts [] m = m
defer_starts (deferred ∷ rest) m = defer_starts rest (wait_for deferred.name deferred.waiting_on m)

abbrev pub or_empty : Option (List Text) → List Text
or_empty none = []
or_empty (some ns) = ns

unfoldable pub waiters_of : Text → Waiting → List Text
unfolding get
waiters_of name m = or_empty (get name m)

unfoldable pub still_waiting : Text → Waiting → Bool
unfolding contains_text
still_waiting name m = any (λ e. contains_text e.1 name) m

unfoldable pub retain_others : Text → List Text → List Text
retain_others name ns = filter (λ n. not (text_eq n name)) ns

unfoldable pub forget_waiter : Text → Waiting → Waiting
unfolding retain_others
forget_waiter name m = filter (λ e. not (is_empty e.1)) (map (λ e. (e.0, retain_others name e.1)) m)

-- `none` is the failed `expect` on a name that the table lacks.
unfoldable pub mark_errored_if_settled : Text → ProcessTable → Option ProcessTable
mark_errored_if_settled name table = elim (find_by_name name table) [
  | none ↦ none
  | some r ↦
      let r' : ProcessRecord = record r { runtime = mark_exited errored r.runtime } in
      some (if is_settled r.runtime.status then write_record (has_name name) r' table else table)
]

-- What the loop of `fail_downstream` changes.
pub record Downstream : Type 0 where
  pub table : ProcessTable
  pub waiters : Waiting
  pub failed : List Text

-- The names that the map makes wait, each as often as it waits.
unfoldable pub waiting_count : Waiting → ℕ
waiting_count [] = 0
waiting_count ((d, ns) ∷ m) = length ns + waiting_count m

-- `none` is a failed `expect`, or the end of the fuel.
unfoldable pub fail_loop : ℕ → List Text → Downstream → Option Downstream
unfolding forget_waiter mark_errored_if_settled waiters_of delete
fail_loop zero dead s = none
fail_loop (suc fuel) [] s = some s
fail_loop (suc fuel) (doomed ∷ dead) s =
    let others = forget_waiter doomed s.waiters in
    elim (mark_errored_if_settled doomed s.table) [
      | none ↦ none
      | some table ↦ fail_loop fuel (reverse (waiters_of doomed others) ++ dead) (record {
        table = table;
        waiters = delete doomed others;
        failed = s.failed ++ doomed ∷ [];
      })
    ]

unfoldable pub fail_downstream : Text → ProcessTable → Waiting → Option Downstream
unfolding fail_loop waiters_of delete waiting_count
fail_downstream name table waiters =
    fail_loop (suc (waiting_count waiters)) (reverse (waiters_of name waiters))
      (record { table = table; waiters = delete name waiters; failed = [] })
