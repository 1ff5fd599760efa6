-- ===== src/Usecases/Supervisor/Watched.antt =====
-- query.rs: the watch lists name records of the table, and the bookkeeping of the samples keeps it.
use pm.Base.{
  ℕ, ◌≡◌, refl, sym, ◌∙◌, subst, true, Option, none, some, List, [], ◌∷◌, filter, Memᴰ,
  mem-map_of_mem, All, All-of_mem, All-filter, All-filter_map, Text, Bool-cases, inl, inr, arith,
}
use pm.Entities.Ready.{ReadyProbe}
use pm.Entities.Runtime.{pass_liveness, fail_liveness, mark_online, mark_stopping}
use pm.Entities.Runtime.{settle_stability as settle_runtime}
use pm.Entities.Status.{launching, online, is_running, status_eq}
use pm.Usecases.Lifecycle.Records.{Keeps}
use pm.Usecases.Ports.{Readiness}
use pm.Usecases.Query.{
  MemoryWatch, MemoryBreach, memory_watch, memory_watch_list, breach_of, rss_of, breached_memory,
  LivenessWatch, liveness_watch, liveness_watch_list, record_liveness, stability_is_settled,
  settle_records, settle_stability,
}
use pm.Usecases.Record.{ProcessRecord}
use pm.Usecases.Supervisor.Healthy.{IsHealthy}
use pm.Usecases.Supervisor.Waiters.{Waiting}
use pm.Usecases.Table.{ProcessTable, pm_ids}
use pm.Usecases.Table.Invariant.{Distinct, IsSound, names}

module _ {ns : List Text} where
  known_names :
      {table : ProcessTable} {waiters : Waiting}
      → IsHealthy ns table waiters
      → All (λ r. Memᴰ r.runtime.name ns) table.records
  known_names {table} h =
      All-of_mem (λ r. Memᴰ r.runtime.name ns) table.records
        (λ r m.
          subst (λ xs. Memᴰ r.runtime.name xs) h.has_names
            (mem-map_of_mem (λ y. y.runtime.name) table.records m))

  watched_memory :
      (r : ProcessRecord) (pid limit : Option ℕ) (watch : MemoryWatch)
      → Memᴰ r.runtime.name ns
      → memory_watch r pid limit ≡ some watch
      → Memᴰ watch.name ns
  unfolding memory_watch
  watched_memory r (some pid) (some limit) watch m h =
      let same : r.runtime.name ≡ watch.name = ground arith in subst (λ n. Memᴰ n ns) same m
  watched_memory r (some pid) none watch m h = cc
  watched_memory r none limit watch m h = cc

  watched_liveness :
      (r : ProcessRecord) (probe : Option ReadyProbe) (watch : LivenessWatch)
      → Memᴰ r.runtime.name ns
      → liveness_watch r probe ≡ some watch
      → Memᴰ watch.name ns
  unfolding liveness_watch
  watched_liveness r none watch m h = cc
  watched_liveness r (some probe) watch m h =
      let same : r.runtime.name ≡ watch.name = ground arith in subst (λ n. Memᴰ n ns) same m

breach_of-name :
    (w : MemoryWatch) (rss : Option ℕ) (b : MemoryBreach)
    → breach_of w rss ≡ some b
    → w.name ≡ b.name
unfolding breach_of
breach_of-name w none b e = cc
breach_of-name w (some rss) b e = ground arith

pub record_liveness-Keeps :
    (r : ProcessRecord) (verdict : Readiness) (threshold : ℕ)
    → Keeps r (record_liveness r verdict threshold).0
unfolding record_liveness pass_liveness fail_liveness
record_liveness-Keeps r verdict threshold = ground arith

pub mark_online-Keeps :
    (r : ProcessRecord)
    → status_eq r.runtime.status launching ≡ true
    → Keeps r (record r { runtime = mark_online r.runtime })
unfolding mark_online
mark_online-Keeps r h = (refl, refl, λ s. ground arith)

pub mark_stopping-Keeps :
    (r : ProcessRecord)
    → status_eq r.runtime.status launching ≡ true
    → Keeps r (record r { runtime = mark_stopping r.runtime })
unfolding mark_stopping
mark_stopping-Keeps r h = (refl, refl, λ s. ground arith)

settle_records-names :
    (now : ℕ) (xs : List ProcessRecord) → names (settle_records now xs).0 ≡ names xs
unfolding settle_records settle_runtime
settle_records-names now [] = refl
settle_records-names now (x ∷ xs) = ground (arith, settle_records-names now xs)

settle_records-ids :
    (now : ℕ) (xs : List ProcessRecord) → pm_ids (settle_records now xs).0 ≡ pm_ids xs
unfolding settle_records settle_runtime
settle_records-ids now [] = refl
settle_records-ids now (x ∷ xs) = ground (arith, settle_records-ids now xs)

settle_runtime-Keeps :
    (r : ProcessRecord) → Keeps r (record r { runtime = settle_runtime r.runtime })
unfolding settle_runtime
settle_runtime-Keeps r = (refl, refl, λ s. ground arith)

settle_records-IsSound :
    (now : ℕ) (xs : List ProcessRecord) → All IsSound xs → All IsSound (settle_records now xs).0
unfolding settle_records
settle_records-IsSound now [] a = tt
settle_records-IsSound now (x ∷ xs) a = elim (Bool-cases (stability_is_settled x now)) [
  | inl e ↦
      rw (e, settle_records) ((settle_runtime-Keeps x).2 a.0, settle_records-IsSound now xs a.1)
  | inr e ↦ rw (e, settle_records) (a.0, settle_records-IsSound now xs a.1)
]

module _ {ns : List Text} {table : ProcessTable} {waiters : Waiting} where
  pub settle_stability-IsHealthy :
      (now : ℕ) → IsHealthy ns table waiters → IsHealthy ns (settle_stability table now).0 waiters
  unfolding settle_stability
  settle_stability-IsHealthy now h = record {
    is_table = record {
      sound = settle_records-IsSound now table.records h.is_table.sound;
      distinct_names =
          subst Distinct (sym (settle_records-names now table.records)) h.is_table.distinct_names;
      distinct_ids =
          subst Distinct (sym (settle_records-ids now table.records)) h.is_table.distinct_ids;
    };
    has_names = settle_records-names now table.records ∙ h.has_names;
    known = h.known;
  }

  pub memory_watch_list-known :
      IsHealthy ns table waiters → All (λ w. Memᴰ w.name ns) (memory_watch_list table)
  unfolding memory_watch_list
  memory_watch_list-known h =
      All-filter_map (λ r. Memᴰ r.runtime.name ns) (λ w. Memᴰ w.name ns)
        (λ r. memory_watch r r.runtime.pid r.spec.max_memory_kib)
        (filter (λ r. is_running r.runtime.status) table.records)
        (λ r w m e. watched_memory r r.runtime.pid r.spec.max_memory_kib w m e)
        (All-filter (λ r. Memᴰ r.runtime.name ns) (λ r. is_running r.runtime.status) table.records
          (known_names h))

  pub liveness_watch_list-known :
      IsHealthy ns table waiters → All (λ w. Memᴰ w.name ns) (liveness_watch_list table)
  unfolding liveness_watch_list
  liveness_watch_list-known h =
      let running = filter (λ r. status_eq r.runtime.status online) table.records in
      All-filter_map (λ r. Memᴰ r.runtime.name ns) (λ w. Memᴰ w.name ns)
        (λ r. liveness_watch r r.spec.liveness_probe) (filter (λ r. r.spec.autorestart) running)
        (λ r w m e. watched_liveness r r.spec.liveness_probe w m e)
        (All-filter (λ r. Memᴰ r.runtime.name ns) (λ r. r.spec.autorestart) running
          (All-filter (λ r. Memᴰ r.runtime.name ns) (λ r. status_eq r.runtime.status online)
            table.records (known_names h)))

pub breached_memory-known :
    (ns : List Text) (watched : List MemoryWatch) (sampled : List (ℕ × ℕ))
    → All (λ w. Memᴰ w.name ns) watched
    → All (λ b. Memᴰ b.name ns) (breached_memory watched sampled)
unfolding breached_memory
breached_memory-known ns watched sampled a =
    All-filter_map (λ w. Memᴰ w.name ns) (λ b. Memᴰ b.name ns)
      (λ w. breach_of w (rss_of w.pid sampled)) watched
      (λ w b m e. breach w (rss_of w.pid sampled) b m e) a
  where
    breach :
        (w : MemoryWatch) (rss : Option ℕ) (b : MemoryBreach)
        → Memᴰ w.name ns
        → breach_of w rss ≡ some b
        → Memᴰ b.name ns
    breach w rss b m e = subst (λ n. Memᴰ n ns) (breach_of-name w rss b e) m
