-- ===== src/Usecases/Resurrect/Takeover.antt =====
-- resurrect.rs: the takeover returns, and what it leaves of the adopted services.
use pm.Base.{
  ℕ, ◌≡◌, subst, Option, none, some, List, filter, mem-filter, Memᴰ, All, All-of_mem, Result, Text,
  ok, err, Option-cases, inl, inr,
}
use pm.Usecases.Launch.{StartOutcome}
use pm.Usecases.Ports.{Ports, DumpContents, UsecaseError, into_token}
use pm.Usecases.Record.{ProcessRecord}
use pm.Usecases.Resurrect.{
  Verdicts, is_adopted, init_pid, trust_of, remembered, recover_each, resurrect_contents, resurrect,
  sweep_stranded, evict_all,
}
use pm.Usecases.Resurrect.Judge.{judge_all}
use pm.Usecases.Table.{ProcessTable, from_records}
use pm.Usecases.Table.Invariant.{IsTable, names}
use pm.Usecases.Table.Order.{dependency_order-IsOrder}
use pm.Usecases.TimerState.{get}
use pm.Usecases.Resurrect.Judged.{judge_all-HasProcesses}
use pm.Usecases.Resurrect.Adoption.{KeepsProcess}
use pm.Usecases.Resurrect.Rounds.{
  Yields, TakingOver, remembered-TakingOver, recover_each-TakingOver,
}

-- The records whose services the verdicts adopt.
abbrev pub adopted_among : Verdicts → List ProcessRecord → List ProcessRecord
adopted_among verdicts stored = filter (λ r. is_adopted (get r.runtime.name verdicts)) stored

-- A takeover that returns and that did not fail, with a table that holds the invariant, has these
-- records' names and in which these services keep their processes.
pub record Recovered (stored adopted : List ProcessRecord) (table : ProcessTable) : Type 0 where
  pub is_table : IsTable table
  pub same_names : names table.records ≡ names stored
  pub processes : All (KeepsProcess table) adopted

abbrev pub Recovers :
    {W : Type 0}
    → List ProcessRecord
    → List ProcessRecord
    → Option (Result (List StartOutcome) UsecaseError × ProcessTable × W)
    → Type 0
Recovers stored adopted none = ⊥
Recovers stored adopted (some (err e, table, w)) = ⊥
Recovers stored adopted (some (ok outcomes, table, w)) = Recovered stored adopted table

module _ {W : Type 0} (ports : Ports W) where
  -- The verdicts of the takeover on what was loaded, after the stranded processes are swept.
  abbrev pub verdicts_on : DumpContents → ℕ → W → Verdicts
  verdicts_on contents kill_timeout_ms w =
      let (init, w') = ports.identity init_pid w in
      let trust = trust_of contents.boot (into_token init) in
      let swept = sweep_stranded ports kill_timeout_ms contents.stranded trust w' in
      (judge_all ports contents.records trust swept).0

  resurrect_contents-Recovered :
      (contents : DumpContents) (logs_dir : Text) (kill_timeout_ms : ℕ) (w : W)
      → IsTable (from_records contents.records)
      → Yields
          (Recovered contents.records
            (adopted_among (verdicts_on contents kill_timeout_ms w) contents.records))
          (resurrect_contents ports contents logs_dir kill_timeout_ms w)
  unfolding resurrect_contents
  resurrect_contents-Recovered contents logs_dir kill_timeout_ms w stored =
      let (init, w1) = ports.identity init_pid w in
      let current = into_token init in
      let trust = trust_of contents.boot current in
      let w2 = sweep_stranded ports kill_timeout_ms contents.stranded trust w1 in
      let (verdicts, w3) = judge_all ports contents.records trust w2 in
      let live = judge_all-HasProcesses ports contents.records contents.boot current w2 in
      let table = remembered verdicts current contents.records in
      let t = remembered-TakingOver ports contents.records verdicts current stored in
      let (order, e, ordered) = dependency_order-IsOrder table t.healthy.is_table in
      let w4 = evict_all ports kill_timeout_ms order verdicts w3 in
      let l =
        recover_each-TakingOver ports contents.records verdicts order logs_dir table w4 live
          (λ n m. subst (λ ns. Memᴰ n ns) t.healthy.has_names (ordered.known n m)) t in
      elim (Option-cases (recover_each ports order verdicts logs_dir table w4)) [
        | inl g ↦ absurd (subst (Yields (TakingOver ports contents.records verdicts)) g l)
        | inr ((os, table', w'), g) ↦
            let l' : TakingOver ports contents.records verdicts table' = rw g at l in
            rw (e, resurrect_contents)
              (rw g (record {
                is_table = l'.healthy.is_table;
                same_names = l'.healthy.has_names;
                processes =
                    All-of_mem (KeepsProcess table') (adopted_among verdicts contents.records)
                      (λ r m.
                        let (k, a) =
                          mem-filter (λ x. is_adopted (get x.runtime.name verdicts))
                            contents.records m in
                        l'.keeps r k a);
              }))
      ]

  -- If the dump can be read and its records form a table that holds the invariant, then the takeover
  -- of the services of the daemon before returns without an error, whatever the outside answers: the
  -- table holds the invariant and has exactly the names of the stored records in their order, and each
  -- stored service that the verdicts adopt has the process id and the identity that were stored, also
  -- after the launches of the others.
  pub resurrect-Recovers :
      (table : ProcessTable) (contents : DumpContents) (logs_dir : Text) (kill_timeout_ms : ℕ)
      (w : W)
      → (ports.load w).0 ≡ ok contents
      → IsTable (from_records contents.records)
      → Recovers contents.records
          (adopted_among (verdicts_on contents kill_timeout_ms (ports.load w).1) contents.records)
          (resurrect ports table logs_dir kill_timeout_ms w)
  unfolding resurrect
  resurrect-Recovers table contents logs_dir kill_timeout_ms w e stored =
      let w' = (ports.load w).1 in
      let l = resurrect_contents-Recovered contents logs_dir kill_timeout_ms w' stored in
      elim (Option-cases (resurrect_contents ports contents logs_dir kill_timeout_ms w')) [
        | inl g ↦ absurd (subst (Yields _) g l)
        | inr ((os, table', w''), g) ↦ let l' = subst (Yields _) g l in rw (e, resurrect) (rw g l')
      ]
