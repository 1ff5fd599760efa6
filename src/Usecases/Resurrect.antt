-- ===== src/Usecases/Resurrect.antt =====
-- usecases/src/resurrect.rs. What runs concurrently is taken in the order of the list. `none` is a
-- failed `expect` of the source.
mod Examples
pub mod Judge
pub mod Trust
pub mod Stale
pub mod Adoption
pub mod Judged
pub mod Rounds
pub mod Takeover
use pm.Base.{
  ℕ, Bool, true, false, not, ◌&&◌, Option, none, some, List, [], ◌∷◌, ◌++◌, map, filter_map, Text,
  text_eq, Result, ok, err, if◌then◌else◌,
}
use pm.Entities.Runtime.{mark_exited, mark_online}
use pm.Entities.Status.{stopped, is_settled}
use pm.Usecases.Fingerprint.{pid_was_recycled}
use pm.Usecases.Launch.{StartKind, adopted, StartOutcome, outcome_of, start_one}
use pm.Usecases.Ports.{
  Ports, Liveness, gone, into_token, SignalScope, process_group, reaches_the_group, StrandedProcess,
  DumpContents, UsecaseError, dump_error,
}
use pm.Usecases.Record.{ProcessRecord, awaits_ready}
use pm.Usecases.Resurrect.Judge.{
  PidTrust, kept, lost, Verdict, adopt as adopt_verdict, settle, respawn, eviction_scope,
  surviving_pid, judge_all,
}
use pm.Usecases.Table.{
  ProcessTable, from_records, remember_boot, has_name, find_by_name, write_record, dependency_order,
  save_table,
}
use pm.Usecases.TimerState.{get}

abbrev pub init_pid : ℕ
init_pid = 1

abbrev pub Verdicts : Type 0
Verdicts = List (Text × (Verdict × Option Text))

-- `PidTrust::of`
unfoldable pub trust_of : Option Text → Option Text → PidTrust
trust_of (some stored) (some current) = if text_eq stored current then kept else lost
trust_of _ _ = kept

pub record Eviction : Type 0 where
  pub name : Text
  pub stale : ℕ
  pub expected : Option Text
  pub scope : SignalScope

-- `Some(Eviction { stale: (*stale)?, .. })`
abbrev evicts : Text → Option ℕ → Option Text → SignalScope → Option Eviction
evicts name none expected scope = none
evicts name (some stale) expected scope =
    some (record { name = name; stale = stale; expected = expected; scope = scope })

unfoldable pub eviction_plan : Text → Verdict × Option Text → Option Eviction
eviction_plan name (adopt_verdict, expected) = none
eviction_plan name (settle stale, expected) = evicts name stale expected process_group
eviction_plan name (respawn change stale, expected) =
    evicts name stale expected (eviction_scope change)

unfoldable pub plan_of : Verdicts → Text → Option Eviction
unfolding eviction_plan get
plan_of verdicts name = elim (get name verdicts) [
  | none ↦ none
  | some judged ↦ eviction_plan name judged
]

abbrev pub is_adopted : Option (Verdict × Option Text) → Bool
is_adopted (some (adopt_verdict, expected)) = true
is_adopted _ = false

unfoldable pub forget_unless_adopted : Verdicts → ProcessRecord → ProcessRecord
unfolding get
forget_unless_adopted verdicts r =
    let runtime =
      if not (is_settled r.runtime.status) && not (is_adopted (get r.runtime.name verdicts))
      then mark_exited stopped r.runtime
      else r.runtime in
    record r { runtime = record runtime { pending_restart = false } }

-- The table with which `resurrect` begins: the stored records, of which those that are not
-- adopted have exited.
unfoldable pub remembered : Verdicts → Option Text → List ProcessRecord → ProcessTable
unfolding forget_unless_adopted
remembered verdicts boot stored =
    remember_boot boot (from_records (map (forget_unless_adopted verdicts) stored))

module _ {W : Type 0} (ports : Ports W) (kill_timeout_ms : ℕ) where
  -- A refused kill is logged.
  unfoldable pub force_lingering_group : ℕ → SignalScope → W → W
  force_lingering_group pid scope w =
      let (left, w') = ports.wait_group_gone pid kill_timeout_ms w in
      let (killed, w'') = ports.force_kill pid scope w' in
      if reaches_the_group scope then if left then w' else w'' else w

  abbrev is_gone : Liveness → Bool
  is_gone gone = true
  is_gone _ = false

  unfoldable pub left_or_recycled : ℕ → Liveness → Option Text → SignalScope → W → Bool × W
  unfolding force_lingering_group
  left_or_recycled pid liveness expected scope w =
      if is_gone liveness
      then (true, force_lingering_group pid scope w)
      else (pid_was_recycled liveness expected, w)

  -- Refused signals are logged.
  unfoldable pub evict_pid : ℕ → Option Text → SignalScope → W → W
  unfolding left_or_recycled
  evict_pid pid expected scope w =
      let (fresh, w1) = ports.identity pid w in
      let (spared, w2) = left_or_recycled pid fresh expected scope w1 in
      let (asked, w3) = ports.terminate pid scope w2 in
      let (liveness, w4) = ports.wait_gone pid kill_timeout_ms w3 in
      let (left, w5) = left_or_recycled pid liveness expected scope w4 in
      let (killed, w6) = ports.force_kill pid scope w5 in
      if spared then w2 else if left then w5 else w6

  unfoldable pub evict_each : List Eviction → W → W
  unfolding evict_pid
  evict_each [] w = w
  evict_each (plan ∷ plans) w = evict_each plans (evict_pid plan.stale plan.expected plan.scope w)

  unfoldable pub evict_all : List Text → Verdicts → W → W
  unfolding evict_each plan_of
  evict_all order verdicts w = evict_each (filter_map (plan_of verdicts) order) w

  unfoldable pub sweep_each : List StrandedProcess → PidTrust → List (ℕ × Liveness) → W → W
  unfolding evict_pid
  sweep_each [] trust observed w = w
  sweep_each (orphan ∷ rest) trust observed w =
      sweep_each rest trust observed (elim (surviving_pid orphan.pid orphan.token trust observed) [
        | none ↦ w
        | some pid ↦ evict_pid pid orphan.token process_group w
      ])

  unfoldable pub sweep_stranded : List StrandedProcess → PidTrust → W → W
  unfolding sweep_each
  sweep_stranded stranded trust w =
      let (observed, w') = ports.identities (filter_map (λ o. o.pid) stranded) w in
      sweep_each stranded trust observed w'

-- The record of an adopted service: online, unless its readiness is still awaited.
unfoldable pub reclaimed : ProcessRecord → ProcessRecord
reclaimed r = if awaits_ready r then r else record r { runtime = mark_online r.runtime }

module _ {W : Type 0} (ports : Ports W) where
  unfoldable pub adopt_one : ProcessTable → Text → W → Option (StartOutcome × ProcessTable × W)
  adopt_one table name w = elim (find_by_name name table) [
    | none ↦ none
    | some r ↦
        let r' = reclaimed r in
        elim r'.runtime.pid [
          | none ↦ none
          | some pid ↦ some (
            outcome_of r' name (some pid) adopted,
            write_record (has_name name) r' table,
            ports.adopt pid w,
          )
        ]
  ]

  -- The match of the loop on one verdict. A failed launch is logged.
  unfoldable pub recover_one :
      Verdict → Text → Text → ProcessTable → W → Option (Option StartOutcome × ProcessTable × W)
  recover_one adopt_verdict name logs_dir table w = elim (adopt_one table name w) [
    | none ↦ none
    | some (outcome, table', w') ↦ some (some outcome, table', w')
  ]
  recover_one (settle stale) name logs_dir table w = some (none, table, w)
  recover_one (respawn change stale) name logs_dir table w =
      elim (start_one ports table name logs_dir w) [
        | none ↦ none
        | some (ok outcome, table', w') ↦ some (some outcome, table', w')
        | some (err e, table', w') ↦ some (none, table', w')
      ]

  unfoldable pub recover_each :
      List Text → Verdicts → Text → ProcessTable → W → Option (List StartOutcome × ProcessTable × W)
  unfolding get
  recover_each [] verdicts logs_dir table w = some ([], table, w)
  recover_each (name ∷ order) verdicts logs_dir table w =
      let recovered : Option (Option StartOutcome × ProcessTable × W) = elim (get name verdicts) [
        | none ↦ some (none, table, w)
        | some judged ↦ recover_one judged.0 name logs_dir table w
      ] in
      elim recovered [
        | none ↦ none
        | some (outcome, table', w') ↦ elim (recover_each order verdicts logs_dir table' w') [
          | none ↦ none
          | some (rest, table'', w'') ↦
              some ((elim outcome [ none ↦ rest | some o ↦ o ∷ rest ]), table'', w'')
        ]
      ]

  -- `resurrect` on what was loaded.
  unfoldable pub resurrect_contents :
      DumpContents → Text → ℕ → W → Option (List StartOutcome × ProcessTable × W)
  resurrect_contents contents logs_dir kill_timeout_ms w =
      let (init, w1) = ports.identity init_pid w in
      let boot = into_token init in
      let trust = trust_of contents.boot boot in
      let w2 = sweep_stranded ports kill_timeout_ms contents.stranded trust w1 in
      let (verdicts, w3) = judge_all ports contents.records trust w2 in
      let table = remembered verdicts boot contents.records in
      elim (dependency_order table) [
        | none ↦ none
        | some order ↦
            elim (recover_each order verdicts logs_dir table
              (evict_all ports kill_timeout_ms order verdicts w3)) [
                | none ↦ none
                | some (outcomes, table', w') ↦
                    let (saved, w'') = save_table ports table' w' in some (outcomes, table', w'')
              ]
      ]

  -- A failed load leaves the table as it is; a failed save is logged.
  unfoldable pub resurrect :
      ProcessTable
      → Text
      → ℕ
      → W
      → Option (Result (List StartOutcome) UsecaseError × ProcessTable × W)
  resurrect table logs_dir kill_timeout_ms w =
      let (loaded, w') = ports.load w in
      elim loaded [
        | err e ↦ some (err (dump_error e), table, w')
        | ok contents ↦ elim (resurrect_contents contents logs_dir kill_timeout_ms w') [
          | none ↦ none
          | some (outcomes, table', w'') ↦ some (ok outcomes, table', w'')
        ]
      ]
