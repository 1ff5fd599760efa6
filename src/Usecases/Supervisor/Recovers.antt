-- ===== src/Usecases/Supervisor/Recovers.antt =====
-- supervisor.rs and supervisor_ready.rs: a restart and a launch never stop on an internal error.
use pm.Base.{
  ℕ, ◌≡◌, refl, Option, none, some, List, Memᴰ, Text, Result, ok, err, Bool-cases, Option-cases,
  inl, inr, arith,
}
use pm.Entities.Ready.{ReadyProbe}
use pm.Usecases.Launch.{StartOutcome, needs_watching}
use pm.Usecases.Ports.{Ports, UsecaseError}
use pm.Usecases.Record.{ProcessRecord}
use pm.Usecases.Restart.{RestartOutcome, started, awaiting_exit}
use pm.Usecases.Alert.{AlertKind, watch_exit}
use pm.Usecases.Supervisor.{Supervisor, identity_token, Turn, with_timers, fire_alert, push}
use pm.Usecases.Supervisor.Healthy.{IsHealthy, known-found}
use pm.Usecases.Supervisor.Launching.{
  watch, watch_pid, await_ready_if_probing, await_probe, dispatch_restart,
}
use pm.Usecases.Supervisor.Timers.{schedule_force_kill, cancel_restart, arm_timer, disarm}
use pm.Usecases.TimerState.{bump}

-- A turn on a healthy state.
abbrev pub Healthy : {W : Type 0} → List Text → Turn W → Type 0
Healthy ns t = IsHealthy ns t.supervisor.table t.supervisor.waiters

-- A step that does not stop on an internal error, and leaves a healthy state with the same names.
abbrev pub Succeeds : {W : Type 0} → List Text → Option (Turn W) → Type 0
Succeeds ns none = ⊥
Succeeds ns (some t) = Healthy ns t

-- A step that writes neither to the table nor to the waiters.
abbrev pub Same : {W : Type 0} → Turn W → Turn W → Type 0
Same t t' =
    (t'.supervisor.table ≡ t.supervisor.table) × (t'.supervisor.waiters ≡ t.supervisor.waiters)

-- The name of what a restart has started.
abbrev pub NamedIn : List Text → Result RestartOutcome UsecaseError → Type 0
NamedIn ns (ok (started o)) = Memᴰ o.name ns
NamedIn ns (ok (awaiting_exit o)) = Unit
NamedIn ns (err e) = Unit

module _ {W : Type 0} where
  pub Same-Healthy : {ns : List Text} (t t' : Turn W) → Same t t' → Healthy ns t → Healthy ns t'
  Same-Healthy t t' e h = rw e.0 (rw e.1 h)

  await_probe-Same :
      (s : Supervisor) (name : Text) (r : ProcessRecord) (generation : ℕ)
      (probe : Option ReadyProbe) (t : Turn W)
      → Same t (await_probe s name r generation probe t)
  unfolding await_probe
  await_probe-Same s name r generation none t = (refl, refl)
  await_probe-Same s name r generation (some probe) t = (ground arith, ground arith)

  await_ready-Succeeds :
      {ns : List Text} (name : Text) (generation : ℕ) (t : Turn W)
      → Healthy ns t
      → Memᴰ name ns
      → Succeeds ns (await_ready_if_probing name generation t)
  unfolding await_ready_if_probing
  await_ready-Succeeds name generation t h m =
      let (r, found) = known-found h m in
      rw (found, await_ready_if_probing)
        (Same-Healthy t (await_probe t.supervisor name r generation r.spec.ready_probe t)
          (await_probe-Same t.supervisor name r generation r.spec.ready_probe t) h)

  watch_pid-Succeeds :
      {ns : List Text} (name : Text) (pid : ℕ) (t : Turn W)
      → Healthy ns t
      → Memᴰ name ns
      → Succeeds ns (watch_pid name pid t)
  unfolding watch_pid
  watch_pid-Succeeds name pid t h m =
      let (timers, generation) = bump name t.supervisor.timers in
      await_ready-Succeeds name generation
        (push (watch_exit name generation pid (identity_token t.supervisor name))
          (with_timers timers t))
        h m

  pub watch-Succeeds :
      {ns : List Text} (o : StartOutcome) (t : Turn W)
      → Healthy ns t
      → Memᴰ o.name ns
      → Succeeds ns (watch o t)
  unfolding watch
  watch-Succeeds o t h m = elim (Option-cases o.pid) [
    | inl e ↦ rw (e, watch) h
    | inr (pid, e) ↦ elim (Bool-cases (needs_watching o.kind)) [
      | inr idle ↦ rw (e, watch) (rw idle h)
      | inl watched ↦ rw (e, watch) (rw watched (watch_pid-Succeeds o.name pid t h m))
    ]
  ]

  pub schedule_force_kill-Same :
      (name : Text) (pid : Option ℕ) (token : Option Text) (t : Turn W)
      → Same t (schedule_force_kill name pid token t)
  unfolding schedule_force_kill
  schedule_force_kill-Same name none token t = (refl, refl)
  schedule_force_kill-Same name (some pid) token t = (refl, refl)

  pub dispatch_restart-Succeeds :
      {ns : List Text} (outcome : RestartOutcome) (t : Turn W)
      → Healthy ns t
      → NamedIn ns (ok outcome)
      → Succeeds ns (dispatch_restart outcome t).0
  unfolding dispatch_restart
  dispatch_restart-Succeeds (started o) t h m = watch-Succeeds o t h m
  dispatch_restart-Succeeds (awaiting_exit o) t h m =
      Same-Healthy t
        (schedule_force_kill o.name o.force_kill_pid (identity_token t.supervisor o.name) t)
        (schedule_force_kill-Same o.name o.force_kill_pid (identity_token t.supervisor o.name) t) h

  pub cancel_restart-Same : (name : Text) (t : Turn W) → Same t (cancel_restart name t)
  unfolding cancel_restart
  cancel_restart-Same name t = (refl, refl)

module _ {W : Type 0} (ports : Ports W) where
  pub arm_timer-Same : (name : Text) (t : Turn W) → Same t (arm_timer ports name t)
  unfolding arm_timer disarm
  arm_timer-Same name t = (ground arith, ground arith)

  pub fire_alert-Same :
      (name : Text) (kind : AlertKind) (t : Turn W) → Same t (fire_alert ports name kind t)
  unfolding fire_alert
  fire_alert-Same name kind t = (ground arith, ground arith)
