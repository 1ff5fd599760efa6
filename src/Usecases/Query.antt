-- ===== src/Usecases/Query.antt =====
-- usecases/src/query.rs
use pm.Base.{
  ℕ, Bool, true, false, not, ◌&&◌, Option, none, some, List, [], ◌∷◌, ◌++◌, map, any, find, filter,
  filter_map, length, Text, codes, print_decimal, Result, ok, err, leb, ◌==◌, if◌then◌else◌,
}
use pm.Entities.Limits.{breaches_memory_limit}
use pm.Entities.Ready.{ReadyProbe}
use pm.Entities.Runtime.{
  identity_token, elapsed_since_launch_ms, pass_liveness, fail_liveness, request_supervised_restart,
}
use pm.Entities.Runtime.{settle_stability as settle_runtime}
use pm.Entities.Status.{online, is_running, is_settled, status_eq}
use pm.Usecases.Ports.{UsecaseError, Readiness, ready}
use pm.Usecases.Record.{ProcessRecord, ProcessView, view}
use pm.Usecases.Selector.{AppSelector}
use pm.Usecases.Table.{ProcessTable, find_record, find_by_name, require}

abbrev stray_label : Text
stray_label = codes "stray"

unfoldable pub list_apps : ProcessTable → ℕ → List ProcessView
list_apps table now_ms = map (view now_ms) table.records

unfoldable pub describe_app : ProcessTable → AppSelector → ℕ → Result ProcessView UsecaseError
describe_app table selector now_ms = elim (require selector table) [
  | ok r ↦ ok (view now_ms r)
  | err e ↦ err e
]

unfoldable pub running_pids : ProcessTable → List ℕ
running_pids table =
    filter_map (λ r. r.runtime.pid) (filter (λ r. is_running r.runtime.status) table.records)

pub record MemoryWatch : Type 0 where
  pub name : Text
  pub pid : ℕ
  pub limit_kib : ℕ

pub record MemoryBreach : Type 0 where
  pub name : Text
  pub rss_kib : ℕ
  pub limit_kib : ℕ

unfoldable pub memory_watch : ProcessRecord → Option ℕ → Option ℕ → Option MemoryWatch
memory_watch r (some pid) (some limit) =
    some (record { name = r.runtime.name; pid = pid; limit_kib = limit })
memory_watch r _ _ = none

unfoldable pub memory_watch_list : ProcessTable → List MemoryWatch
unfolding memory_watch
memory_watch_list table =
    filter_map (λ r. memory_watch r r.runtime.pid r.spec.max_memory_kib)
      (filter (λ r. is_running r.runtime.status) table.records)

unfoldable pub rss_of : ℕ → List (ℕ × ℕ) → Option ℕ
rss_of pid [] = none
rss_of pid ((key, rss) ∷ rest) = if key == pid then some rss else rss_of pid rest

unfoldable pub breach_of : MemoryWatch → Option ℕ → Option MemoryBreach
breach_of watch none = none
breach_of watch (some rss) =
    if breaches_memory_limit watch.limit_kib rss
    then some (record { name = watch.name; rss_kib = rss; limit_kib = watch.limit_kib })
    else none

unfoldable pub breached_memory : List MemoryWatch → List (ℕ × ℕ) → List MemoryBreach
unfolding rss_of breach_of
breached_memory watched sampled = filter_map (λ w. breach_of w (rss_of w.pid sampled)) watched

unfoldable pub unsettled_count : ProcessTable → ℕ
unsettled_count table = length (filter (λ r. not (is_settled r.runtime.status)) table.records)

abbrev is_some {ℓ} : {A : Type ℓ} → Option A → Bool
is_some none = false
is_some (some a) = true

unfoldable pub armed_schedule_names : ProcessTable → List Text
armed_schedule_names table =
    map (λ r. r.runtime.name)
      (filter (λ r. is_some r.spec.schedule && r.runtime.schedule_armed) table.records)

unfoldable pub schedule_of : ProcessTable → Text → Option Text
schedule_of table name = elim (find_by_name name table) [ none ↦ none | some r ↦ r.spec.schedule ]

unfoldable pub identity_token_of : ProcessTable → AppSelector → Option Text
identity_token_of table selector = elim (find_record selector table) [
  | none ↦ none
  | some r ↦ identity_token r.runtime
]

unfoldable pub unswept_pids : List ℕ → List ℕ → List ℕ
unswept_pids tracked scheduled = filter (λ pid. not (any (λ q. q == pid) scheduled)) tracked

abbrev holds_pid : ℕ → Option ℕ → Bool
holds_pid pid none = false
holds_pid pid (some p) = p == pid

unfoldable pub owner_of_pid : ProcessTable → ℕ → Text × Option Text
owner_of_pid table pid = elim (find (λ r. holds_pid pid r.runtime.pid) table.records) [
  | none ↦ (stray_label ++ (codes "-" ++ print_decimal pid), none)
  | some r ↦ (r.runtime.name, identity_token r.runtime)
]

unfoldable pub hand_to_the_breaker : ProcessRecord → ProcessRecord
hand_to_the_breaker r =
    if r.runtime.pending_restart
    then record r { runtime = request_supervised_restart r.runtime }
    else r

pub record LivenessWatch : Type 0 where
  pub name : Text
  pub probe : ReadyProbe

unfoldable pub liveness_watch : ProcessRecord → Option ReadyProbe → Option LivenessWatch
liveness_watch r none = none
liveness_watch r (some probe) = some (record { name = r.runtime.name; probe = probe })

unfoldable pub liveness_watch_list : ProcessTable → List LivenessWatch
unfolding liveness_watch
liveness_watch_list table =
    filter_map (λ r. liveness_watch r r.spec.liveness_probe)
      (filter (λ r. r.spec.autorestart)
        (filter (λ r. status_eq r.runtime.status online) table.records))

unfoldable pub record_liveness : ProcessRecord → Readiness → ℕ → ProcessRecord × Bool
record_liveness r ready threshold = (record r { runtime = pass_liveness r.runtime }, false)
record_liveness r _ threshold =
    let (runtime, tripped) = fail_liveness threshold r.runtime in
    (record r { runtime = runtime }, tripped)

unfoldable pub stability_is_settled : ProcessRecord → ℕ → Bool
stability_is_settled r now_ms =
    if r.runtime.unstable_restarts == 0
    then false
    else elim (elapsed_since_launch_ms r.runtime now_ms) [
      | none ↦ false
      | some elapsed ↦ leb r.spec.min_uptime_ms elapsed
    ]

unfoldable pub settle_records : ℕ → List ProcessRecord → List ProcessRecord × List Text
unfolding stability_is_settled
settle_records now_ms [] = ([], [])
settle_records now_ms (r ∷ rest) =
    let (records, settled) = settle_records now_ms rest in
    if stability_is_settled r now_ms
    then (record r { runtime = settle_runtime r.runtime } ∷ records, r.runtime.name ∷ settled)
    else (r ∷ records, settled)

-- The new table, and the names of the records that it settled.
unfoldable pub settle_stability : ProcessTable → ℕ → ProcessTable × List Text
unfolding settle_records
settle_stability table now_ms =
    let (records, settled) = settle_records now_ms table.records in
    (record table { records = records }, settled)
