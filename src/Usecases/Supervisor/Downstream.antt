-- ===== src/Usecases/Supervisor/Downstream.antt =====
-- supervisor_ready.rs: failing the services that wait for one that has failed, directly or not.
use pm.Base.{
  ℕ, zero, suc, ◌+◌, ◌≤◌, ◌<◌, ◌≡◌, refl, some, List, [], ◌∷◌, ◌++◌, length, length-append,
  length-reverse, reverse, Memᴰ, All-append, Text, arith,
}
use pm.Usecases.Supervisor.Healthy.{
  Known, IsHealthy, mark_errored-IsHealthy, forget_waiter-count, delete-count, forget_waiter-known,
  delete-known, waiters_of-Known, reverse-Known,
}
use pm.Usecases.Supervisor.Waiters.{
  Waiting, Downstream as Fallen, waiting_count, waiters_of, forget_waiter, fail_loop,
  fail_downstream,
}
use pm.Usecases.Table.{ProcessTable}
use pm.Usecases.TimerState.{delete}

-- One round leaves less to do.
round_shrinks :
    (fuel : ℕ) (doomed : Text) (dead : List Text) (m : Waiting)
    → length (doomed ∷ dead) + waiting_count m < suc fuel
    → length (reverse (waiters_of doomed (forget_waiter doomed m)) ++ dead)
        + waiting_count (delete doomed (forget_waiter doomed m))
      < fuel
round_shrinks fuel doomed dead m h =
    let others = forget_waiter doomed m in
    omega (
      arith,
      length-append (reverse (waiters_of doomed others)) dead,
      length-reverse (waiters_of doomed others),
      delete-count doomed others,
      forget_waiter-count doomed m,
    )

module _ {ns : List Text} where
  fail_loop-returns :
      (fuel : ℕ) (dead : List Text) (s : Fallen)
      → length dead + waiting_count s.waiters < fuel
      → IsHealthy ns s.table s.waiters
      → Known ns dead
      → (d : Fallen) × (fail_loop fuel dead s ≡ some d)
        × IsHealthy ns d.table d.waiters
        × (waiting_count d.waiters ≤ waiting_count s.waiters)
  unfolding fail_loop
  fail_loop-returns zero dead s enough h k = absurd (omega arith)
  fail_loop-returns (suc fuel) [] s enough h k = (s, refl, h, omega arith)
  fail_loop-returns (suc fuel) (doomed ∷ dead) s enough h k =
      let others = forget_waiter doomed s.waiters in
      let (table, marked, hm) = mark_errored-IsHealthy h k.0 in
      let known = forget_waiter-known ns doomed s.waiters h.known in
      let next : Fallen = record {
        table = table;
        waiters = delete doomed others;
        failed = s.failed ++ doomed ∷ [];
      } in
      let (d, e, hd, fewer) =
        fail_loop-returns fuel (reverse (waiters_of doomed others) ++ dead) next
          (round_shrinks fuel doomed dead s.waiters enough)
          (record {
            is_table = hm.is_table;
            has_names = hm.has_names;
            known = delete-known ns doomed others known;
          })
          (All-append (λ n. Memᴰ n ns) (reverse (waiters_of doomed others)) dead
            (reverse-Known ns (waiters_of doomed others) (waiters_of-Known ns doomed others known))
            k.1) in
      (
        d,
        rw (marked, fail_loop) e,
        hd,
        omega (arith, fewer, delete-count doomed others, forget_waiter-count doomed s.waiters),
      )

  -- In a table that holds the invariant, and in which every waiting service has a record, failing the
  -- services that wait for one, directly or not, ends without an internal error and within the fuel
  -- that the number of waiting names gives; it leaves such a table with the same names, and no more
  -- waiting names than before.
  pub fail_downstream-returns :
      (name : Text) (table : ProcessTable) (waiters : Waiting)
      → IsHealthy ns table waiters
      → (d : Fallen) × (fail_downstream name table waiters ≡ some d)
        × IsHealthy ns d.table d.waiters
        × (waiting_count d.waiters ≤ waiting_count waiters)
  unfolding fail_downstream
  fail_downstream-returns name table waiters h =
      let start : Fallen = record { table = table; waiters = delete name waiters; failed = [] } in
      let (d, e, hd, fewer) =
        fail_loop-returns (suc (waiting_count waiters)) (reverse (waiters_of name waiters)) start
          (omega (arith, length-reverse (waiters_of name waiters), delete-count name waiters))
          (record {
            is_table = h.is_table;
            has_names = h.has_names;
            known = delete-known ns name waiters h.known;
          })
          (reverse-Known ns (waiters_of name waiters) (waiters_of-Known ns name waiters h.known)) in
      (d, e, hd, omega (arith, fewer, delete-count name waiters))
