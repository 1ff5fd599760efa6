-- ===== src/Frameworks/Daemon/Examples.antt =====
-- The daemon at concrete values.
use pm.Base.{ℕ, ◌+◌, refl, List, [], ◌∷◌, codes, err, arith}
use pm.Adapters.Samples.{config}
use pm.Frameworks.Daemon.{Daemon, new}
use pm.Frameworks.Daemon.Board.{DaemonEvent}
use pm.Frameworks.Daemon.Runs.{IsDaemon, Answered, run, run-Answered}
use pm.Usecases.Ports.{SpecResolver, missing, signalled}
use pm.Usecases.Samples.{clock, web, table, table-IsTable}
use pm.Usecases.Supervisor.{new as new_supervisor}

abbrev no_declarations : SpecResolver ℕ
no_declarations = record { prepare = λ name w. (err (missing name []), w) }

abbrev daemon : Daemon
daemon =
    let d = new config (codes "/logs") in
    record d { supervisor = record d.supervisor { table = table } }

daemon-IsDaemon : IsDaemon (web ∷ []) daemon
unfolding new new_supervisor
daemon-IsDaemon = record {
  healthy = record { is_table = table-IsTable; has_names = refl; known = tt };
  polls = omega arith;
  bounded = omega arith;
}

abbrev events : List DaemonEvent
events =
    DaemonEvent.sample_memory
    ∷ DaemonEvent.exited web 0 signalled
    ∷ DaemonEvent.restart web
    ∷ DaemonEvent.ready web 0
    ∷ DaemonEvent.shutdown
    ∷ []

run-Answered_example :
    Answered (web ∷ []) (run clock (λ ms w. ms + w) no_declarations (λ t. t) events daemon 9)
run-Answered_example =
    run-Answered clock (λ ms w. ms + w) no_declarations (λ t. t) events daemon 9
      (tt, (tt, (tt, (tt, (tt, tt))))) daemon-IsDaemon
