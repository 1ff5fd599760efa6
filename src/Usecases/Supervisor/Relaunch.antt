-- ===== src/Usecases/Supervisor/Relaunch.antt =====
-- start.rs and restart.rs: a launch and a restart of a service that has a record.
use pm.Base.{
  ◌≡◌, refl, sym, subst, Option, none, some, List, Memᴰ, Text, Result, ok, err, Bool-cases,
  Option-cases, Result-cases, inl, inr, arith,
}
use pm.Entities.Runtime.{request_restart}
use pm.Entities.Status.{is_settled}
use pm.Usecases.Launch.{StartMode, fire, StartOutcome, launch_record, spawn_record, launch}
use pm.Usecases.Lifecycle.Records.{
  Keeps-trans, launch_record-Keeps, request_stop-Keeps, request_restart-Keeps,
}
use pm.Usecases.Ports.{Ports, UsecaseError}
use pm.Usecases.Record.{ProcessRecord}
use pm.Usecases.Restart.{restart_app, restart_settled, restart_running}
use pm.Usecases.Selector.{name as by_name}
use pm.Usecases.Stop.{request_stop}
use pm.Usecases.Supervisor.Healthy.{
  IsHealthy, known-found, selected-known, write-IsHealthy, write_selected-IsHealthy,
}
use pm.Usecases.Supervisor.Recovers.{NamedIn}
use pm.Usecases.Supervisor.Waiters.{Waiting}
use pm.Usecases.Table.{ProcessTable, find_record, selects}

-- What a launch or a restart leaves: a result of which `P` holds, and a healthy state.
abbrev pub Leaves :
    {A W : Type 0} → List Text → Waiting → (A → Type 0) → Option (A × ProcessTable × W) → Type 0
Leaves ns waiters P none = ⊥
Leaves ns waiters P (some (result, table, w)) = P result × IsHealthy ns table waiters

abbrev pub StartedIn : List Text → Result StartOutcome UsecaseError → Type 0
StartedIn ns (ok o) = Memᴰ o.name ns
StartedIn ns (err e) = Unit

module _ {W : Type 0} (ports : Ports W) where
  launched_name :
      (r : ProcessRecord) (name logs_dir : Text) (mode : StartMode) (w : W) {o : StartOutcome}
      → (launch_record ports r name logs_dir mode w).0 ≡ ok o
      → o.name ≡ name
  unfolding launch_record spawn_record
  launched_name r name logs_dir mode w h = ground arith

module _ {W : Type 0} (ports : Ports W) {ns : List Text} {waiters : Waiting} where
  pub launch-Leaves :
      (table : ProcessTable) (name logs_dir : Text) (mode : StartMode) (w : W)
      → IsHealthy ns table waiters
      → Memᴰ name ns
      → Leaves ns waiters (StartedIn ns) (launch ports table name logs_dir mode w)
  unfolding launch
  launch-Leaves table name logs_dir mode w h m =
      let (r, found) = known-found h m in
      let left =
        write-IsHealthy name r (launch_record ports r name logs_dir mode w).1 h found
          (launch_record-Keeps ports r name logs_dir mode w) in
      rw (found, launch)
        (elim (Result-cases (launch_record ports r name logs_dir mode w).0) [
          | inl (o, e) ↦
              rw e (
                subst (λ n. Memᴰ n ns) (sym (launched_name ports r name logs_dir mode w e)) m,
                left,
              )
          | inr (x, e) ↦ rw e (tt, left)
        ])

  restart_settled-Leaves :
      (table : ProcessTable) (name logs_dir : Text) (w : W)
      → IsHealthy ns table waiters
      → Memᴰ name ns
      → Leaves ns waiters (NamedIn ns) (restart_settled ports table name logs_dir w)
  unfolding restart_settled
  restart_settled-Leaves table name logs_dir w h m =
      split (launch ports table name logs_dir fire w) refl
        (launch-Leaves table name logs_dir fire w h m)
    where
      split :
          (o : Option (Result StartOutcome UsecaseError × ProcessTable × W))
          → launch ports table name logs_dir fire w ≡ o
          → Leaves ns waiters (StartedIn ns) o
          → Leaves ns waiters (NamedIn ns) (restart_settled ports table name logs_dir w)
      split none e l = absurd l
      split (some (ok o, table', w')) e l = rw (e, restart_settled) l
      split (some (err x, table', w')) e l = rw (e, restart_settled) l

  restart_running-Leaves :
      (table : ProcessTable) (name : Text) (r : ProcessRecord) (w : W)
      → IsHealthy ns table waiters
      → find_record (by_name name) table ≡ some r
      → Leaves ns waiters (NamedIn ns) (some (restart_running ports table (by_name name) r w))
  unfolding restart_running find_record
  restart_running-Leaves table name r w h found =
      let r' = (request_stop ports r w).1 in
      let k = request_stop-Keeps ports r w in
      let asked : ProcessRecord = record r' { runtime = request_restart r'.runtime } in
      elim (Result-cases (request_stop ports r w).0) [
        | inl (o, e) ↦
            rw (e, restart_running)
              (
                tt,
                write_selected-IsHealthy (selects (by_name name)) r asked h found
                    (Keeps-trans r r' asked k (request_restart-Keeps r')),
              )
        | inr (x, e) ↦
            rw (e, restart_running)
              (tt, write_selected-IsHealthy (selects (by_name name)) r r' h found k)
      ]

  pub restart_app-Leaves :
      (table : ProcessTable) (name logs_dir : Text) (w : W)
      → IsHealthy ns table waiters
      → Leaves ns waiters (NamedIn ns) (restart_app ports table (by_name name) logs_dir w)
  unfolding restart_app
  restart_app-Leaves table name logs_dir w h =
      elim (Option-cases (find_record (by_name name) table)) [
        | inl absent ↦ rw (absent, restart_app) (tt, h)
        | inr (r, found) ↦ elim (Bool-cases (is_settled r.runtime.status)) [
          | inl e ↦
              rw (found, restart_app)
                (rw e (
                  restart_settled-Leaves table r.runtime.name logs_dir w h
                    (selected-known h found).1))
          | inr e ↦ rw (found, restart_app) (rw e (restart_running-Leaves table name r w h found))
        ]
      ]
