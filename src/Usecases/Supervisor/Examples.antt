-- ===== src/Usecases/Supervisor/Examples.antt =====
-- The supervisor at concrete values: the service `web` waits for a service that the table lacks.
use pm.Base.{ℕ, ◌≤◌, ◌≡◌, refl, some, [], ◌∷◌, Memᴰ, codes}
use pm.Usecases.Samples.{clock, web, db, table, table-IsTable}
use pm.Usecases.Supervisor.{Turn, new}
use pm.Usecases.Supervisor.Downstream.{fail_downstream-returns}
use pm.Usecases.Supervisor.Healthy.{IsHealthy}
use pm.Usecases.Supervisor.Launching.{launch_waiters}
use pm.Usecases.Supervisor.Recovers.{Succeeds}
use pm.Usecases.Supervisor.Releases.{launch_waiters-Succeeds}
use pm.Usecases.Supervisor.Waiters.{Waiting, Downstream, waiting_count, fail_downstream}

abbrev waiters : Waiting
waiters = (db, web ∷ []) ∷ (web, web ∷ []) ∷ []

waiters-IsHealthy : IsHealthy (web ∷ []) table waiters
waiters-IsHealthy = record {
  is_table = table-IsTable;
  has_names = refl;
  known = ((Memᴰ.head refl, tt), ((Memᴰ.head refl, tt), tt));
}

fail_downstream-returns_example :
    (d : Downstream) × (fail_downstream db table waiters ≡ some d)
    × IsHealthy (web ∷ []) d.table d.waiters
    × (waiting_count d.waiters ≤ waiting_count waiters)
fail_downstream-returns_example = fail_downstream-returns db table waiters waiters-IsHealthy

abbrev turn : Turn ℕ
turn = record {
  supervisor = record (new (codes "/logs") 1500 3000 100 3600000) {
    table = table;
    waiters = waiters;
  };
  effects = [];
  world = 9;
}

launch_waiters-Succeeds_example : Succeeds (web ∷ []) (launch_waiters clock web turn)
launch_waiters-Succeeds_example =
    launch_waiters-Succeeds clock web turn waiters-IsHealthy (Memᴰ.head refl)
