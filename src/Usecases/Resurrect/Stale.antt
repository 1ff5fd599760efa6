-- ===== src/Usecases/Resurrect/Stale.antt =====
-- resurrect.rs and resurrect/judge.rs: which survivors of the daemon before are signalled.
use pm.Base.{
  ℕ, ◌≡◌, ◌≢◌, refl, sym, ap, ◌∙◌, subst, true, false, inl, inr, Option, none, some, List, Text,
  text_eq, Bool-cases, arith,
}
use pm.Entities.Runtime.{ProcessIdentity, identity_token}
use pm.Entities.Status.{is_shutting_down}
use pm.Usecases.Fingerprint.{pid_was_recycled}
use pm.Usecases.Ports.{Ports, Liveness, alive, gone, unreadable}
use pm.Usecases.Record.{ProcessRecord}
use pm.Usecases.Resurrect.{Eviction, eviction_plan, trust_of}
use pm.Usecases.Resurrect.Judge.{
  PidTrust, kept, lost, Verdict, adopt, settle, respawn, observed_of, surviving, surviving_pid,
  judge_stopping, judge_alive, judge_observed, judge_running, judge_trusted, judge_verdict, judge,
}
use pm.Usecases.Resurrect.Trust.{SameBoot, trust_of-SameBoot}

surviving-not_recycled :
    (pid : ℕ) (expected : Option Text) (liveness : Liveness) {q : ℕ}
    → surviving pid expected liveness ≡ some q
    → (q ≡ pid) × (liveness ≢ gone) × (pid_was_recycled liveness expected ≡ false)
unfolding surviving
surviving-not_recycled pid expected gone h = cc
surviving-not_recycled pid expected (alive token) h =
    elim (Bool-cases (pid_was_recycled (alive token) expected)) [
      | inl e ↦ let h' = rw (e, surviving) at h in cc
      | inr e ↦ let h' = rw (e, surviving) at h in (ground arith, λ g. cc, e)
    ]
surviving-not_recycled pid expected unreadable h =
    elim (Bool-cases (pid_was_recycled unreadable expected)) [
      | inl e ↦ let h' = rw (e, surviving) at h in cc
      | inr e ↦ let h' = rw (e, surviving) at h in (ground arith, λ g. cc, e)
    ]

surviving_pid-trusted :
    (pid : Option ℕ) (expected : Option Text) (trust : PidTrust) (observed : List (ℕ × Liveness))
    {q : ℕ}
    → surviving_pid pid expected trust observed ≡ some q
    → (trust ≡ kept)
      × (pid ≡ some q)
      × (observed_of q observed ≢ gone)
      × (pid_was_recycled (observed_of q observed) expected ≡ false)
unfolding surviving_pid
surviving_pid-trusted none expected trust observed h = cc
surviving_pid-trusted (some p) expected lost observed h = cc
surviving_pid-trusted (some p) expected kept observed h =
    let (e, alive_still, same) = surviving-not_recycled p expected (observed_of p observed) h in
    (
      refl,
      ap some (sym e),
      subst (λ q. observed_of q observed ≢ gone) (sym e) alive_still,
      subst (λ q. pid_was_recycled (observed_of q observed) expected ≡ false) (sym e) same,
    )

-- What is known of the process id that a verdict wants evicted.
abbrev stale_of : Verdict → Option ℕ
stale_of adopt = none
stale_of (settle stale) = stale
stale_of (respawn change stale) = stale

record IsOurs (r : ProcessRecord) (trust : PidTrust) (observed : List (ℕ × Liveness)) (q : ℕ)
    : Type 0 where
  trusted : trust ≡ kept
  recorded : r.runtime.pid ≡ some q
  not_gone : observed_of q observed ≢ gone
  not_recycled : pid_was_recycled (observed_of q observed) (identity_token r.runtime) ≡ false

EvictsOurs : ProcessRecord → PidTrust → List (ℕ × Liveness) → Verdict → Type 0
EvictsOurs r trust observed v = (q : ℕ) → stale_of v ≡ some q → IsOurs r trust observed q

has_token :
    (r : ProcessRecord) (i : ProcessIdentity)
    → r.runtime.identity ≡ some i
    → identity_token r.runtime ≡ some i.token
unfolding identity_token
has_token r i e = rw (e, identity_token) refl

not_recycled_of_same :
    (liveness : Liveness) (expected : Option Text) (token token' : Text)
    → liveness ≡ alive token
    → expected ≡ some token'
    → text_eq token token' ≡ true
    → pid_was_recycled liveness expected ≡ false
unfolding pid_was_recycled
not_recycled_of_same liveness expected token token' e f same =
    rw e (rw f (rw (same, pid_was_recycled) refl))

-- A process that is seen alive under the recorded token.
same_process :
    (r : ProcessRecord) (pid q : ℕ) (i : ProcessIdentity) (token : Text)
    (observed : List (ℕ × Liveness))
    → r.runtime.pid ≡ some pid
    → r.runtime.identity ≡ some i
    → observed_of pid observed ≡ alive token
    → text_eq token i.token ≡ true
    → q ≡ pid
    → IsOurs r kept observed q
same_process r pid q i token observed has_pid has_identity seen same here =
    let seen_here : observed_of q observed ≡ alive token = rw here seen in
    record {
      trusted = refl;
      recorded = has_pid ∙ ap some (sym here);
      not_gone = λ g. let clash : alive token ≡ gone = sym seen_here ∙ g in cc;
      not_recycled =
          not_recycled_of_same (observed_of q observed) (identity_token r.runtime) token i.token
            seen_here (has_token r i has_identity) same;
    }

module _ {W : Type 0} (ports : Ports W) where
  judge_stopping-EvictsOurs :
      (r : ProcessRecord) (trust : PidTrust) (observed : List (ℕ × Liveness))
      → EvictsOurs r trust observed (judge_stopping r trust observed)
  unfolding judge_stopping EvictsOurs
  judge_stopping-EvictsOurs r trust observed q h =
      let found : surviving_pid r.runtime.pid (identity_token r.runtime) trust observed ≡ some q =
        ground arith in
      let (trusted, recorded, not_gone, not_recycled) =
        surviving_pid-trusted r.runtime.pid (identity_token r.runtime) trust observed found in
      record {
        trusted = trusted;
        recorded = recorded;
        not_gone = not_gone;
        not_recycled = not_recycled;
      }

  judge_alive-EvictsOurs :
      (r : ProcessRecord) (pid : ℕ) (i : ProcessIdentity) (token : Text)
      (observed : List (ℕ × Liveness)) (w : W)
      → r.runtime.pid ≡ some pid
      → r.runtime.identity ≡ some i
      → observed_of pid observed ≡ alive token
      → EvictsOurs r kept observed (judge_alive ports r pid i token w).0
  unfolding judge_alive EvictsOurs
  judge_alive-EvictsOurs r pid i token observed w has_pid has_identity seen q h =
      elim (Bool-cases (text_eq token i.token)) [
        | inr other ↦ let h' = rw (other, judge_alive) at h in cc
        | inl same ↦
            same_process r pid q i token observed has_pid has_identity seen same (ground arith)
      ]

  judge_observed-EvictsOurs :
      (r : ProcessRecord) (pid : ℕ) (i : ProcessIdentity) (liveness : Liveness)
      (observed : List (ℕ × Liveness)) (w : W)
      → r.runtime.pid ≡ some pid
      → r.runtime.identity ≡ some i
      → observed_of pid observed ≡ liveness
      → EvictsOurs r kept observed (judge_observed ports r pid i liveness w).0
  unfolding judge_observed EvictsOurs pid_was_recycled
  judge_observed-EvictsOurs r pid i (alive token) observed w has_pid has_identity seen q h =
      judge_alive-EvictsOurs r pid i token observed w has_pid has_identity seen q h
  judge_observed-EvictsOurs r pid i gone observed w has_pid has_identity seen q h = cc
  judge_observed-EvictsOurs r pid i unreadable observed w has_pid has_identity seen q h =
      let here : q ≡ pid = ground arith in
      let seen_here : observed_of q observed ≡ unreadable = rw here seen in
      record {
        trusted = refl;
        recorded = has_pid ∙ ap some (sym here);
        not_gone = λ g. let clash : unreadable ≡ gone = sym seen_here ∙ g in cc;
        not_recycled = rw seen_here refl;
      }

  judge_running-EvictsOurs :
      (r : ProcessRecord) (pid : Option ℕ) (i : Option ProcessIdentity)
      (observed : List (ℕ × Liveness)) (w : W)
      → r.runtime.pid ≡ pid
      → r.runtime.identity ≡ i
      → EvictsOurs r kept observed (judge_running ports r pid i observed w).0
  unfolding judge_running EvictsOurs identity_token
  judge_running-EvictsOurs r (some p) (some i) observed w has_pid has_identity q h =
      judge_observed-EvictsOurs r p i (observed_of p observed) observed w has_pid has_identity refl
        q h
  judge_running-EvictsOurs r none i observed w has_pid has_identity q h =
      let (trusted, absent, not_gone, not_recycled) =
        surviving_pid-trusted none none kept observed h in
      cc
  judge_running-EvictsOurs r (some p) none observed w has_pid has_identity q h =
      let (trusted, recorded, not_gone, not_recycled) =
        surviving_pid-trusted (some p) none kept observed h in
      record {
        trusted = trusted;
        recorded = has_pid ∙ recorded;
        not_gone = not_gone;
        not_recycled = rw has_identity not_recycled;
      }

  judge_trusted-EvictsOurs :
      (r : ProcessRecord) (trust : PidTrust) (observed : List (ℕ × Liveness)) (w : W)
      → EvictsOurs r trust observed (judge_trusted ports r trust observed w).0
  unfolding judge_trusted EvictsOurs
  judge_trusted-EvictsOurs r kept observed w q h =
      judge_running-EvictsOurs r r.runtime.pid r.runtime.identity observed w refl refl q h
  judge_trusted-EvictsOurs r lost observed w q h = cc

  judge_verdict-EvictsOurs :
      (r : ProcessRecord) (trust : PidTrust) (observed : List (ℕ × Liveness)) (w : W)
      → EvictsOurs r trust observed (judge_verdict ports r trust observed w).0
  unfolding judge_verdict
  judge_verdict-EvictsOurs r trust observed w =
      elim (Bool-cases (is_shutting_down r.runtime.status)) [
        | inl e ↦ rw (e, judge_verdict) (judge_stopping-EvictsOurs r trust observed)
        | inr e ↦ rw (e, judge_verdict) (judge_trusted-EvictsOurs r trust observed w)
      ]

  planned_stale :
      (name : Text) (judged : Verdict × Option Text) {plan : Eviction}
      → eviction_plan name judged ≡ some plan
      → (stale_of judged.0 ≡ some plan.stale) × (plan.expected ≡ judged.1)
  unfolding eviction_plan
  planned_stale name (adopt, expected) h = cc
  planned_stale name (settle none, expected) h = cc
  planned_stale name (settle (some q), expected) h = (ground arith, ground arith)
  planned_stale name (respawn change none, expected) h = cc
  planned_stale name (respawn change (some q), expected) h = (ground arith, ground arith)

  -- A process that the plan of a recorded service evicts is the one that the service's record names;
  -- the boot that the dump recorded is the one that the host reports, where both are known; and the
  -- process is seen neither gone nor under another token than the one that the eviction then
  -- compares with what it sees itself.
  pub eviction_plan-ours :
      (name : Text) (r : ProcessRecord) (stored current : Option Text)
      (observed : List (ℕ × Liveness)) (w : W) {plan : Eviction}
      → eviction_plan name (judge ports r (trust_of stored current) observed w).0 ≡ some plan
      → SameBoot stored current
        × (r.runtime.pid ≡ some plan.stale)
        × (observed_of plan.stale observed ≢ gone)
        × (pid_was_recycled (observed_of plan.stale observed) plan.expected ≡ false)
  unfolding judge EvictsOurs
  eviction_plan-ours name r stored current observed w {plan} h =
      let trust = trust_of stored current in
      let (stale, expected) = planned_stale name (judge ports r trust observed w).0 h in
      let ours = judge_verdict-EvictsOurs r trust observed w plan.stale stale in
      (
        trust_of-SameBoot stored current ours.trusted,
        ours.recorded,
        ours.not_gone,
        subst (λ e. pid_was_recycled (observed_of plan.stale observed) e ≡ false) (sym expected)
            ours.not_recycled,
      )
