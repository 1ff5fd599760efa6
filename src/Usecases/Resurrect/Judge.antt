-- ===== src/Usecases/Resurrect/Judge.antt =====
-- usecases/src/resurrect/judge.rs. What runs concurrently is taken in the order of the list.
use pm.Base.{
  ℕ, Bool, not, Option, none, some, List, [], ◌∷◌, filter, filter_map, Text, codes, text_eq, ok,
  err, ◌==◌, if◌then◌else◌,
}
use pm.Entities.Runtime.{ProcessIdentity, identity_token}
use pm.Entities.Status.{is_settled, is_shutting_down}
use pm.Usecases.Fingerprint.{render_identity, pid_was_recycled}
use pm.Usecases.Ports.{
  Ports, Liveness, alive, gone, unreadable, SignalScope, process_group, single_pid,
}
use pm.Usecases.Record.{ProcessRecord}
use pm.Usecases.TimerState.{insert}

pub data PidTrust : Type 0 where
  kept lost : PidTrust

pub data Change : Type 0 where
  unknown was_gone was_unreadable reused launch binary rebooted restart : Change

pub data Verdict : Type 0 where
  adopt : Verdict
  settle : (stale : Option ℕ) → Verdict
  respawn : (change : Change) (stale : Option ℕ) → Verdict

unfoldable pub eviction_scope : Change → SignalScope
eviction_scope unknown = single_pid
eviction_scope was_unreadable = single_pid
eviction_scope _ = process_group

unfoldable pub change_as_str : Change → Text
change_as_str unknown = codes "unknown"
change_as_str was_gone = codes "gone"
change_as_str was_unreadable = codes "unreadable"
change_as_str reused = codes "reused"
change_as_str launch = codes "launch"
change_as_str binary = codes "binary"
change_as_str rebooted = codes "rebooted"
change_as_str restart = codes "restart"

-- `observed.get(&pid)`, or unreadable.
unfoldable pub observed_of : ℕ → List (ℕ × Liveness) → Liveness
observed_of pid [] = unreadable
observed_of pid ((key, liveness) ∷ rest) = if key == pid then liveness else observed_of pid rest

unfoldable pub was_supposed_to_run : ProcessRecord → Bool
was_supposed_to_run r = not (is_settled r.runtime.status)

-- A pid that is trusted, unless it is seen gone or recycled.
unfoldable pub surviving : ℕ → Option Text → Liveness → Option ℕ
surviving pid expected gone = none
surviving pid expected liveness = if pid_was_recycled liveness expected then none else some pid

unfoldable pub surviving_pid : Option ℕ → Option Text → PidTrust → List (ℕ × Liveness) → Option ℕ
unfolding surviving observed_of
surviving_pid none expected trust observed = none
surviving_pid (some pid) expected lost observed = none
surviving_pid (some pid) expected kept observed = surviving pid expected (observed_of pid observed)

-- `judge_verdict` on a service that was shutting down.
unfoldable pub judge_stopping : ProcessRecord → PidTrust → List (ℕ × Liveness) → Verdict
unfolding surviving_pid
judge_stopping r trust observed =
    let stale = surviving_pid r.runtime.pid (identity_token r.runtime) trust observed in
    if r.runtime.pending_restart then respawn restart stale else settle stale

module _ {W : Type 0} (ports : Ports W) where
  -- `judge_verdict` on a process that is alive under the token.
  unfoldable pub judge_alive : ProcessRecord → ℕ → ProcessIdentity → Text → W → Verdict × W
  judge_alive r pid identity token w =
      let (digested, w') = ports.file_digest r.spec.script w in
      let verdict : Verdict = elim digested [
        | err e ↦ adopt
        | ok digest ↦
            if text_eq digest identity.binary_digest then adopt else respawn binary (some pid)
      ] in
      if not (text_eq token identity.token)
      then (respawn reused none, w)
      else if not (text_eq (ports.digest (render_identity r.spec)) identity.launch_digest)
      then (respawn launch (some pid), w)
      else (verdict, w')

  unfoldable pub judge_observed : ProcessRecord → ℕ → ProcessIdentity → Liveness → W → Verdict × W
  unfolding judge_alive
  judge_observed r pid identity (alive token) w = judge_alive r pid identity token w
  judge_observed r pid identity gone w = (respawn was_gone none, w)
  judge_observed r pid identity unreadable w = (respawn was_unreadable (some pid), w)

  -- `judge_verdict` on a service that was running, when pids are trusted.
  unfoldable pub judge_running :
      ProcessRecord → Option ℕ → Option ProcessIdentity → List (ℕ × Liveness) → W → Verdict × W
  unfolding judge_observed surviving_pid observed_of
  judge_running r (some pid) (some identity) observed w =
      judge_observed r pid identity (observed_of pid observed) w
  judge_running r pid _ observed w = (respawn unknown (surviving_pid pid none kept observed), w)

  unfoldable pub judge_trusted : ProcessRecord → PidTrust → List (ℕ × Liveness) → W → Verdict × W
  unfolding judge_running
  judge_trusted r lost observed w = (respawn rebooted none, w)
  judge_trusted r kept observed w = judge_running r r.runtime.pid r.runtime.identity observed w

  unfoldable pub judge_verdict : ProcessRecord → PidTrust → List (ℕ × Liveness) → W → Verdict × W
  unfolding judge_stopping judge_trusted
  judge_verdict r trust observed w =
      if is_shutting_down r.runtime.status
      then (judge_stopping r trust observed, w)
      else judge_trusted r trust observed w

  unfoldable pub judge :
      ProcessRecord → PidTrust → List (ℕ × Liveness) → W → (Verdict × Option Text) × W
  unfolding judge_verdict
  judge r trust observed w =
      let (verdict, w') = judge_verdict r trust observed w in
      ((verdict, identity_token r.runtime), w')

  -- The verdicts under their names; the last one of a name stays in the map.
  unfoldable pub judge_each :
      List ProcessRecord
      → PidTrust
      → List (ℕ × Liveness)
      → List (Text × (Verdict × Option Text))
      → W
      → List (Text × (Verdict × Option Text)) × W
  unfolding judge insert
  judge_each [] trust observed verdicts w = (verdicts, w)
  judge_each (r ∷ rest) trust observed verdicts w =
      let (judged, w') = judge r trust observed w in
      judge_each rest trust observed (insert r.runtime.name judged verdicts) w'

  unfoldable pub judge_all :
      List ProcessRecord → PidTrust → W → List (Text × (Verdict × Option Text)) × W
  unfolding judge_each was_supposed_to_run
  judge_all stored trust w =
      let awaited = filter was_supposed_to_run stored in
      let (observed, w') = ports.identities (filter_map (λ r. r.runtime.pid) awaited) w in
      judge_each awaited trust observed [] w'
