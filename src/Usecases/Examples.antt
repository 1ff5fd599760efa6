-- ===== src/Usecases/Examples.antt =====
-- The use cases at concrete values.
use pm.Base.{
  ◌↔◌, contains_text, ltb, ◌-◌, ◌&&◌, ◌==◌, if◌then◌else◌, ◌≢◌, List, All, ℕ, ◌≡◌, ◌≤◌, ◌<◌, refl,
  true, false, none, some, [], ◌∷◌, Memᴰ, Text, codes, text_eq, pos, arith,
}
use pm.Entities.Status.{stopping, is_settled}
use pm.Usecases.Alert.{
  AlertLatch, liveness_killed, fire, forget, is_cooling, discriminant, last_fired,
}
use pm.Usecases.Alert.Latch.{fire-cools, forget-clears}
use pm.Usecases.Handover.{ServiceSnapshot, compare_handover}
use pm.Usecases.Handover.Partition.{KeptProcess, compare_handover-adopted}
use pm.Usecases.TimerState.{next_fire_of, current_generation, get}
use pm.Usecases.TimerState.Refines.{
  Abstract, Operation, arming, queueing, watching, disarming, Represents, specified_all,
  implemented_all, implemented_all-Represents,
}
use pm.Usecases.Delete.{delete_app}
use pm.Usecases.Lifecycle.Deletion.{Deletes, delete_app-Deletes}
use pm.Usecases.Lifecycle.Runs.{
  stop_requested, child_exited, delete_requested, IsTableIfAny, run, run-IsTable,
}
use pm.Usecases.Ports.{code, signalled}
use pm.Usecases.Record.{ProcessRecord}
use pm.Usecases.Restart.{restart_app}
use pm.Usecases.Selector.{id, parse, to_string, name as by_name}
use pm.Usecases.Selector.RoundTrip.{parse-to_string}
use pm.Usecases.Lifecycle.Shutdown.{IsQuiet, stop_all_apps-quiets}
use pm.Usecases.Lifecycle.Restarting.{restart_app-ne-none}
use pm.Usecases.Stop.{StopOutcome, stop_all_apps}
use pm.Usecases.Supervise.{classify_record}
use pm.Usecases.Supervise.Coherent.{classify_record-settles}
use pm.Usecases.Table.{
  dependency_order, ProcessTable, empty, upsert, lowest_free_pm_id, pm_ids, find_record,
}
use pm.Usecases.Table.Ids.{lowest_free_pm_id_lem}
use pm.Usecases.Table.Invariant.{IsCoherent, IsTable}
use pm.Usecases.Table.Growth.{upsert-IsTable}
use pm.Usecases.Table.Order.{IsOrder, dependency_order-IsOrder}
use pm.Usecases.TimerState.{new, bump, is_current}
use pm.Usecases.TimerState.Generations.{IsBounded, new-IsBounded, bump_stales}
use pm.Usecases.Samples.{clock, web, db, spec, running, table, table-IsTable}

run-IsTable_example : IsTableIfAny (
    run clock
      (stop_requested (by_name web) ∷ child_exited web signalled ∷ delete_requested (id 1) ∷ [])
      table
      9)
run-IsTable_example =
    run-IsTable clock
      (stop_requested (by_name web) ∷ child_exited web signalled ∷ delete_requested (id 1) ∷ [])
      table 9 table-IsTable

abbrev stopping_web : ProcessRecord
stopping_web = record running {
  runtime = record running.runtime { status = stopping; pending_restart = true };
}

classify_record-settles_example :
    let runtime = (classify_record running (code (pos 0)) 30).0.runtime in
    (is_settled runtime.status ≡ true) × IsCoherent runtime × (runtime.pending_restart ≡ false)
classify_record-settles_example = classify_record-settles running (code (pos 0)) 30

upsert-IsTable_example : IsTable (upsert spec 3 empty).0
unfolding empty
upsert-IsTable_example =
    upsert-IsTable spec 3 empty (record { sound = tt; distinct_names = tt; distinct_ids = tt })
      (omega arith)

lowest_free_pm_id_example :
    (1 ≤ lowest_free_pm_id table)
    × (¬ Memᴰ (lowest_free_pm_id table) (pm_ids table.records))
    × ((n : ℕ) → 1 ≤ n → n < lowest_free_pm_id table → Memᴰ n (pm_ids table.records))
lowest_free_pm_id_example = lowest_free_pm_id_lem table (omega arith)

parse-to_string_example : parse (to_string (id 7)) ≡ id 7
parse-to_string_example = parse-to_string (id 7) (omega arith)

bump_stales_example :
    IsBounded (bump web new).0
    × (is_current web (bump web new).1 (bump web new).0 ≡ true)
    × (is_current web 0 (bump web new).0 ≡ false)
    × (is_current db 4 (bump web new).0 ≡ is_current db 4 new)
unfolding new text_eq
bump_stales_example = bump_stales web db 0 4 new new-IsBounded (omega arith) (omega arith) refl

abbrev stopping_db : ProcessRecord
stopping_db = record running { runtime = record running.runtime { status = stopping } }

delete_app-Deletes_example : Deletes web db table (delete_app clock table (id 1) 9)
unfolding find_record text_eq
delete_app-Deletes_example =
    delete_app-Deletes clock table (id 1) running db 9 table-IsTable refl refl

stop_all_apps-quiets_example :
    (outcomes : List StopOutcome) × (table' : ProcessTable) × (w' : ℕ) × (stop_all_apps clock table
        9
      ≡ some (outcomes, table', w'))
    × All IsQuiet table'.records
stop_all_apps-quiets_example = stop_all_apps-quiets clock table 9 table-IsTable

restart_app-ne-none_example : restart_app clock table (id 1) (codes "/logs") 9 ≢ none
restart_app-ne-none_example = restart_app-ne-none clock table (id 1) (codes "/logs") 9

dependency_order-IsOrder_example :
    (order : List Text) × (dependency_order table ≡ some order) × IsOrder table order
dependency_order-IsOrder_example = dependency_order-IsOrder table table-IsTable

abbrev latch : AlertLatch
latch = record { cooldown_ms = 500; fired = ((web, 2), 100) ∷ [] }

fire-cools_example :
    is_cooling (fire web liveness_killed 700 latch).1 (web, discriminant liveness_killed) 900 ≡ (
      if text_eq web web && (discriminant liveness_killed == discriminant liveness_killed)
      then ltb (900 - 700) 500
      else is_cooling latch (web, discriminant liveness_killed) 900)
unfolding is_cooling last_fired text_eq discriminant
fire-cools_example = fire-cools web web liveness_killed liveness_killed 700 900 latch refl

forget_then_fire :
    is_cooling (forget db latch) (web, discriminant liveness_killed) 900
    ≡ (if text_eq db web then false else is_cooling latch (web, discriminant liveness_killed) 900)
forget_then_fire = forget-clears db web liveness_killed 900 latch

abbrev rows : List ServiceSnapshot
rows = record { name = web; pid = some 42 } ∷ []

abbrev nothing : Abstract
nothing = record { fire = λ n. none; queued = λ n. false; generation = λ n. 0; counter = 0 }

compare_handover-adopted_example :
    Memᴰ web (compare_handover rows rows).adopted
    ↔ (row : ServiceSnapshot) × Memᴰ row rows × (web ≡ row.name) × KeptProcess rows row
compare_handover-adopted_example = compare_handover-adopted rows rows web

abbrev asked : List Operation
asked = arming web 900 ∷ queueing db ∷ watching web ∷ disarming web ∷ []

implemented_all-Represents_example :
    Represents (specified_all asked nothing) (implemented_all asked new)
unfolding new next_fire_of contains_text current_generation get
implemented_all-Represents_example =
    implemented_all-Represents asked nothing new
      (record { fires = λ n. refl; queues = λ n. refl; generations = λ n. refl; counts = refl })
