-- ===== src/Usecases/Resurrect/Trust.antt =====
-- resurrect.rs and resurrect/judge.rs: which survivors of the daemon before are signalled, and which
-- are adopted.
use pm.Base.{
  ℕ, ◌≡◌, ◌≢◌, refl, ap, ◌∙◌, false, ◌⊎◌, inl, inr, Option, none, some, List, Text, text_eq,
  text_eq_iff, ok, err, Bool-cases, Result-cases, if◌then◌else◌, arith,
}
use pm.Entities.Runtime.{ProcessIdentity}
use pm.Entities.Status.{is_shutting_down}
use pm.Usecases.Fingerprint.{render_identity}
use pm.Usecases.Ports.{Ports, Liveness, alive, gone, unreadable, FingerprintError}
use pm.Usecases.Record.{ProcessRecord}
use pm.Usecases.Resurrect.{trust_of}
use pm.Usecases.Resurrect.Judge.{
  PidTrust, kept, lost, adopt, respawn, binary, observed_of, judge_stopping, judge_alive,
  judge_observed, judge_running, judge_trusted, judge_verdict,
}

-- The boot that the dump recorded and the one that the host reports do not contradict each other:
-- where both are known they are the same.
abbrev pub SameBoot : (stored current : Option Text) → Type 0
SameBoot stored current = (stored ≡ none) ⊎ ((current ≡ none) ⊎ (stored ≡ current))

pub trust_of-SameBoot :
    (stored current : Option Text) → trust_of stored current ≡ kept → SameBoot stored current
unfolding trust_of
trust_of-SameBoot none current h = inl refl
trust_of-SameBoot (some stored) none h = inr (inl refl)
trust_of-SameBoot (some stored) (some current) h =
    inr (inr (ap some ((text_eq_iff stored current).0 (ground arith))))

-- A process that may be adopted: its service was running, the boots do not contradict each other,
-- and the process is seen alive under the recorded token, launched as the spec says now, from a
-- program that is unchanged or that cannot be read.
pub record MayAdopt {W : Type 0} (ports : Ports W) (r : ProcessRecord)
    (stored current : Option Text) (observed : List (ℕ × Liveness)) (w : W) : Type 0 where
  pub running : is_shutting_down r.runtime.status ≡ false
  pub same_boot : SameBoot stored current
  pub pid : ℕ
  pub has_pid : r.runtime.pid ≡ some pid
  pub identity : ProcessIdentity
  pub has_identity : r.runtime.identity ≡ some identity
  pub seen : observed_of pid observed ≡ alive identity.token
  pub launched : ports.digest (render_identity r.spec) ≡ identity.launch_digest
  pub program :
      ((ports.file_digest r.spec.script w).0 ≡ ok identity.binary_digest)
      ⊎ ((e : FingerprintError) × ((ports.file_digest r.spec.script w).0 ≡ err e))

module _ {W : Type 0} (ports : Ports W) where
  judge_alive-adopt :
      (r : ProcessRecord) (pid : ℕ) (identity : ProcessIdentity) (token : Text) (w : W)
      → (judge_alive ports r pid identity token w).0 ≡ adopt
      → (token ≡ identity.token)
        × (ports.digest (render_identity r.spec) ≡ identity.launch_digest)
        × (((ports.file_digest r.spec.script w).0 ≡ ok identity.binary_digest)
            ⊎ ((e : FingerprintError) × ((ports.file_digest r.spec.script w).0 ≡ err e)))
  unfolding judge_alive
  judge_alive-adopt r pid identity token w h = elim (Bool-cases (text_eq token identity.token)) [
    | inr other ↦ let h' = rw (other, judge_alive) at h in cc
    | inl same ↦
        elim (Bool-cases (text_eq (ports.digest (render_identity r.spec)) identity.launch_digest)) [
          | inr other ↦ let h' = rw other at (rw (same, judge_alive) at h) in cc
          | inl launched ↦
              let h' = rw launched at (rw (same, judge_alive) at h) in
              ((text_eq_iff _ _).0 same, (text_eq_iff _ _).0 launched, program h')
        ]
  ]
    where
      program :
          (elim (ports.file_digest r.spec.script w).0 [
            | err e ↦ adopt
            | ok digest ↦
                if text_eq digest identity.binary_digest then adopt else respawn binary (some pid)
          ])
            ≡ adopt
          → ((ports.file_digest r.spec.script w).0 ≡ ok identity.binary_digest)
            ⊎ ((e : FingerprintError) × ((ports.file_digest r.spec.script w).0 ≡ err e))
      program h = elim (Result-cases (ports.file_digest r.spec.script w).0) [
        | inr (e, g) ↦ inr (e, g)
        | inl (digest, g) ↦ elim (Bool-cases (text_eq digest identity.binary_digest)) [
          | inl same ↦ inl (g ∙ ap ok ((text_eq_iff _ _).0 same))
          | inr other ↦ let h' = rw other at (rw g at h) in cc
        ]
      ]

  judge_observed-adopt :
      (r : ProcessRecord) (pid : ℕ) (identity : ProcessIdentity) (liveness : Liveness) (w : W)
      → (judge_observed ports r pid identity liveness w).0 ≡ adopt
      → (token : Text) × (liveness ≡ alive token)
        × ((judge_alive ports r pid identity token w).0 ≡ adopt)
  unfolding judge_observed
  judge_observed-adopt r pid identity (alive token) w h = (token, refl, h)
  judge_observed-adopt r pid identity gone w h = cc
  judge_observed-adopt r pid identity unreadable w h = cc

  judge_running-adopt :
      (r : ProcessRecord) (pid : Option ℕ) (identity : Option ProcessIdentity)
      (observed : List (ℕ × Liveness)) (w : W)
      → (judge_running ports r pid identity observed w).0 ≡ adopt
      → (p : ℕ) × (i : ProcessIdentity) × (pid ≡ some p)
        × (identity ≡ some i)
        × ((judge_observed ports r p i (observed_of p observed) w).0 ≡ adopt)
  unfolding judge_running
  judge_running-adopt r (some p) (some i) observed w h = (p, i, refl, refl, h)
  judge_running-adopt r none i observed w h = cc
  judge_running-adopt r (some p) none observed w h = cc

  judge_trusted-adopt :
      (r : ProcessRecord) (trust : PidTrust) (observed : List (ℕ × Liveness)) (w : W)
      → (judge_trusted ports r trust observed w).0 ≡ adopt
      → (trust ≡ kept)
        × ((judge_running ports r r.runtime.pid r.runtime.identity observed w).0 ≡ adopt)
  unfolding judge_trusted
  judge_trusted-adopt r kept observed w h = (refl, h)
  judge_trusted-adopt r lost observed w h = cc

  judge_stopping-ne-adopt :
      (r : ProcessRecord) (trust : PidTrust) (observed : List (ℕ × Liveness))
      → judge_stopping r trust observed ≢ adopt
  unfolding judge_stopping
  judge_stopping-ne-adopt r trust observed h = elim (Bool-cases r.runtime.pending_restart) [
    | inl e ↦ let h' = rw (e, judge_stopping) at h in cc
    | inr e ↦ let h' = rw (e, judge_stopping) at h in cc
  ]

  -- A survivor of the daemon before is adopted only if its service was not being stopped, the boot
  -- that the dump recorded is the one that the host reports, where both are known, the record has a
  -- process id and an identity, the process is seen alive under the recorded token, its launch digest
  -- is the one of the spec as it is now, and its program has the recorded digest or cannot be read.
  pub judge_verdict-MayAdopt :
      (r : ProcessRecord) (stored current : Option Text) (observed : List (ℕ × Liveness)) (w : W)
      → (judge_verdict ports r (trust_of stored current) observed w).0 ≡ adopt
      → MayAdopt ports r stored current observed w
  unfolding judge_verdict
  judge_verdict-MayAdopt r stored current observed w h =
      let trust = trust_of stored current in
      elim (Bool-cases (is_shutting_down r.runtime.status)) [
        | inl e ↦ absurd (judge_stopping-ne-adopt r trust observed (rw (e, judge_verdict) at h))
        | inr e ↦
            let (trusted, h1) =
              judge_trusted-adopt r trust observed w (rw (e, judge_verdict) at h) in
            let (p, i, has_pid, has_identity, h2) =
              judge_running-adopt r r.runtime.pid r.runtime.identity observed w h1 in
            let (token, seen, h3) = judge_observed-adopt r p i (observed_of p observed) w h2 in
            let (same, launched, program) = judge_alive-adopt r p i token w h3 in
            record {
              running = e;
              same_boot = trust_of-SameBoot stored current trusted;
              pid = p;
              has_pid = has_pid;
              identity = i;
              has_identity = has_identity;
              seen = seen ∙ ap alive same;
              launched = launched;
              program = program;
            }
      ]
