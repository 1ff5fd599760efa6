-- ===== src/Usecases/Supervisor/Releases.antt =====
-- supervisor_ready.rs: launching the services that wait for one that is ready ends, whatever their
-- launches end in.
use pm.Base.{
  ℕ, zero, suc, ◌+◌, ◌≤◌, ◌<◌, ◌≡◌, refl, Bool, true, false, Option, none, some, List, [], ◌∷◌,
  length, Memᴰ, Text, ok, err, Bool-cases, Option-cases, inl, inr, if◌then◌else◌, arith,
}
use pm.Usecases.Alert.{launch_failed}
use pm.Usecases.Launch.{register, StartOutcome, register_one}
use pm.Usecases.Ports.{Ports}
use pm.Usecases.Supervisor.{Turn, with_table, fire_alert, save_logged}
use pm.Usecases.Supervisor.Downstream.{fail_downstream-returns}
use pm.Usecases.Supervisor.Healthy.{
  Known, mark_errored-IsHealthy, delete-count, delete-known, waiters_of-Known,
}
use pm.Usecases.Supervisor.Launching.{
  watch, watch_pid, await_ready_if_probing, await_probe, give_up_waiter, launch_waiter, launch_each,
  launch_loop, launch_waiters,
}
use pm.Usecases.Supervisor.Recovers.{
  Healthy, Succeeds, watch-Succeeds, arm_timer-Same, fire_alert-Same,
}
use pm.Usecases.Supervisor.Relaunch.{Leaves, StartedIn, launch-Leaves}
use pm.Usecases.Supervisor.Restarts.{arm_timer-Healthy, fire_alert-Healthy}
use pm.Usecases.Supervisor.Waiters.{waiting_count, waiters_of, still_waiting}
use pm.Usecases.TimerState.{delete}

abbrev count : {W : Type 0} → Turn W → ℕ
count t = waiting_count t.supervisor.waiters

watch-waiters :
    {W : Type 0} (o : StartOutcome) (t : Turn W) {t' : Turn W}
    → watch o t ≡ some t'
    → t'.supervisor.waiters ≡ t.supervisor.waiters
unfolding watch watch_pid await_ready_if_probing await_probe
watch-waiters o t h = ground arith

-- A step that leaves a healthy state, and not more waiting names.
abbrev Releases : {W : Type 0} → List Text → ℕ → Option (Turn W × Bool) → Type 0
Releases ns limit none = ⊥
Releases ns limit (some (t, released)) = Healthy ns t × (count t ≤ limit)

-- The same of a loop that adds to the queue.
abbrev Queues : {W : Type 0} → List Text → ℕ → Option (List Text × Turn W) → Type 0
Queues ns limit none = ⊥
Queues ns limit (some (queue, t)) = Healthy ns t × (length queue + count t ≤ limit) × Known ns queue

Queues-le :
    {W : Type 0} (ns : List Text) (a b : ℕ) (o : Option (List Text × Turn W))
    → a ≤ b
    → Queues ns a o
    → Queues ns b o
Queues-le ns a b none le l = l
Queues-le ns a b (some (queue, t)) le l = (l.0, omega (arith, l.1), l.2)

queue-Known :
    {ns : List Text} (released : Bool) (waiter : Text) (queue : List Text)
    → Memᴰ waiter ns
    → Known ns queue
    → Known ns (if released then waiter ∷ queue else queue)
      × (length (if released then waiter ∷ queue else queue) ≤ suc (length queue))
queue-Known true waiter queue m q = ((m, q), omega arith)
queue-Known false waiter queue m q = (q, omega arith)

module _ {W : Type 0} (ports : Ports W) {ns : List Text} where
  give_up_waiter-returns :
      (waiter : Text) (t : Turn W)
      → Healthy ns t
      → Memᴰ waiter ns
      → (t' : Turn W) × (give_up_waiter ports waiter t ≡ some t')
        × Healthy ns t'
        × (count t' ≤ count t)
  unfolding give_up_waiter
  give_up_waiter-returns waiter t h m =
      let (table, marked, hm) = mark_errored-IsHealthy h m in
      let (d, e, hd, fewer) = fail_downstream-returns waiter table t.supervisor.waiters hm in
      let left : Turn W = record t {
        supervisor = record t.supervisor { table = d.table; waiters = d.waiters };
      } in
      (
        fire_alert ports waiter launch_failed left,
        rw (marked, give_up_waiter) (rw e refl),
        fire_alert-Healthy ports waiter launch_failed left hd,
        rw (fire_alert-Same ports waiter launch_failed left).1 fewer,
      )

  launch_waiter-Releases :
      (waiter : Text) (t : Turn W)
      → Healthy ns t
      → Memᴰ waiter ns
      → Releases ns (count t) (launch_waiter ports waiter t)
  unfolding launch_waiter register_one save_logged
  launch_waiter-Releases waiter t h m =
      let s = t.supervisor in
      let l = launch-Leaves ports s.table waiter s.logs_dir register t.world h m in
      elim (Option-cases (register_one ports s.table waiter s.logs_dir t.world)) [
        | inl e ↦ absurd (rw e at l)
        | inr ((err x, table, w), e) ↦
            let l' : Leaves ns s.waiters (StartedIn ns) (some (err x, table, w)) = rw e at l in
            let (t', g, h', fewer) =
              give_up_waiter-returns waiter (with_table table (record t { world = w })) l'.1 m in
            rw (e, launch_waiter) (rw g (h', fewer))
        | inr ((ok o, table, w), e) ↦
            let l' : Leaves ns s.waiters (StartedIn ns) (some (ok o, table, w)) = rw e at l in
            let left : Turn W = with_table table (record t { world = w }) in
            let watched = watch-Succeeds o left l'.1 l'.0 in
            elim (Option-cases (watch o left)) [
              | inl g ↦ absurd (rw g at watched)
              | inr (t', g) ↦
                  let h' : Healthy ns t' = rw g at watched in
                  rw (e, launch_waiter)
                    (rw g (
                      arm_timer-Healthy ports waiter t' h',
                      rw (arm_timer-Same ports waiter t').1
                          (rw (watch-waiters o left g) (omega arith)),
                    ))
            ]
      ]

  launch_each-Queues :
      (waiters queue : List Text) (t : Turn W)
      → Healthy ns t
      → Known ns waiters
      → Known ns queue
      → Queues ns (length queue + length waiters + count t) (launch_each ports waiters queue t)
  unfolding launch_each
  launch_each-Queues [] queue t h k q = (h, omega arith, q)
  launch_each-Queues (waiter ∷ waiters) queue t h k q =
      elim (Bool-cases (still_waiting waiter t.supervisor.waiters)) [
        | inl waits ↦
            rw (waits, launch_each)
              (Queues-le ns (length queue + length waiters + count t)
                (length queue + suc (length waiters) + count t) (launch_each ports waiters queue t)
                (omega arith) (launch_each-Queues waiters queue t h k.1 q))
        | inr free ↦
            let l = launch_waiter-Releases waiter t h k.0 in
            elim (Option-cases (launch_waiter ports waiter t)) [
              | inl e ↦ absurd (rw e at l)
              | inr ((t', released), e) ↦
                  let l' : Releases ns (count t) (some (t', released)) = rw e at l in
                  let queue' = if released then waiter ∷ queue else queue in
                  let (q', longer) = queue-Known released waiter queue k.0 q in
                  rw (free, launch_each)
                    (rw e (
                      Queues-le ns (length queue' + length waiters + count t')
                        (length queue + suc (length waiters) + count t)
                        (launch_each ports waiters queue' t') (omega (arith, longer, l'.1))
                        (launch_each-Queues waiters queue' t' l'.0 k.1 q')))
            ]
      ]

  launch_loop-Succeeds :
      (fuel : ℕ) (queue : List Text) (t : Turn W)
      → length queue + count t < fuel
      → Healthy ns t
      → Known ns queue
      → Succeeds ns (launch_loop ports fuel queue t)
  unfolding launch_loop
  launch_loop-Succeeds zero queue t enough h q = absurd (omega arith)
  launch_loop-Succeeds (suc fuel) [] t enough h q = h
  launch_loop-Succeeds (suc fuel) (name ∷ queue) t enough h q =
      let s = t.supervisor in
      let waiters = waiters_of name s.waiters in
      let left : Turn W = record t { supervisor = record s { waiters = delete name s.waiters } } in
      let hl : Healthy ns left = record {
        is_table = h.is_table;
        has_names = h.has_names;
        known = delete-known ns name s.waiters h.known;
      } in
      let l =
        launch_each-Queues waiters queue left hl (waiters_of-Known ns name s.waiters h.known) q.1 in
      elim (Option-cases (launch_each ports waiters queue left)) [
        | inl e ↦ absurd (rw e at l)
        | inr ((queue', t'), e) ↦
            let l' : Queues ns (length queue + length waiters + count left) (some (queue', t')) =
              rw e at l in
            rw (e, launch_loop)
              (launch_loop-Succeeds fuel queue' t'
                (omega (arith, l'.1, delete-count name s.waiters, enough)) l'.0 l'.2)
      ]

  -- In a table that holds the invariant, and in which every waiting service has a record, launching
  -- the services that wait for one, and those that wait for what is thereby released, ends without
  -- an internal error and within the fuel that the number of waiting names gives, whatever the
  -- outside answers; it leaves such a table with the same names.
  pub launch_waiters-Succeeds :
      (name : Text) (t : Turn W)
      → Healthy ns t
      → Memᴰ name ns
      → Succeeds ns (launch_waiters ports name t)
  unfolding launch_waiters
  launch_waiters-Succeeds name t h m =
      launch_loop-Succeeds (suc (suc (count t))) (name ∷ []) t (omega arith) h (m, tt)
