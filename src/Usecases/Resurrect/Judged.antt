-- ===== src/Usecases/Resurrect/Judged.antt =====
-- judge.rs: the records that the verdicts of the takeover adopt.
use pm.Base.{
  ℕ, ◌≡◌, refl, sym, ap, ◌∙◌, Option, some, List, [], ◌∷◌, filter, mem-filter, Memᴰ, Text, text_eq,
  text_eq_iff, Bool-cases, inl, inr,
}
use mathlib.Core.Option.{some-injective}
use pm.Usecases.Ports.{Ports, Liveness}
use pm.Usecases.Record.{ProcessRecord}
use pm.Usecases.Resurrect.{Verdicts, trust_of}
use pm.Usecases.Resurrect.Judge.{adopt, judge, judge_each, judge_all, was_supposed_to_run}
use pm.Usecases.Resurrect.Trust.{judge_verdict-MayAdopt}
use pm.Usecases.TimerState.{get, insert}
use pm.Usecases.TimerState.Generations.{get-insert}

-- Each verdict to adopt is one on a stored record with a process id.
abbrev pub HasProcesses : List ProcessRecord → Verdicts → Type 0
HasProcesses stored verdicts =
    (name : Text) (expected : Option Text)
    → get name verdicts ≡ some (adopt, expected)
    → (r : ProcessRecord) × Memᴰ r stored
      × (r.runtime.name ≡ name)
      × ((pid : ℕ) × (r.runtime.pid ≡ some pid))

module _ {W : Type 0} (ports : Ports W) (stored : List ProcessRecord)
    (boot current : Option Text) where
  judge_each-HasProcesses :
      (awaited : List ProcessRecord) (observed : List (ℕ × Liveness)) (verdicts : Verdicts) (w : W)
      → ((r : ProcessRecord) → Memᴰ r awaited → Memᴰ r stored)
      → HasProcesses stored verdicts
      → HasProcesses stored (judge_each ports awaited (trust_of boot current) observed verdicts w).0
  unfolding judge_each judge
  judge_each-HasProcesses [] observed verdicts w m h = h
  judge_each-HasProcesses (r ∷ rest) observed verdicts w m h =
      let (judged, w') = judge ports r (trust_of boot current) observed w in
      judge_each-HasProcesses rest observed (insert r.runtime.name judged verdicts) w'
        (λ x k. m x (Memᴰ.tail k))
        (λ name expected e.
          let inserted = sym (get-insert r.runtime.name name judged verdicts) ∙ e in
          elim (Bool-cases (text_eq r.runtime.name name)) [
            | inr other ↦ h name expected (rw other at inserted)
            | inl same ↦
                let mine : judged ≡ (adopt, expected) =
                  some-injective judged (adopt, expected) (rw same at inserted) in
                let may =
                  judge_verdict-MayAdopt ports r boot current observed w (ap (λ j. j.0) mine) in
                (r, m r (Memᴰ.head refl), (text_eq_iff _ _).0 same, (may.pid, may.has_pid))
          ])

  pub judge_all-HasProcesses :
      (w : W) → HasProcesses stored (judge_all ports stored (trust_of boot current) w).0
  unfolding judge_all get
  judge_all-HasProcesses w =
      judge_each-HasProcesses (filter was_supposed_to_run stored) _ [] _
        (λ r m. (mem-filter was_supposed_to_run stored m).0) (λ name expected e. cc)
