-- ===== src/Entities/Restart/Breaker.antt =====
-- What a series of exits does to the counter of unstable restarts.
use pm.Base.{
  ℕ, suc, ◌+◌, ◌≤◌, ◌<◌, ◌≡◌, refl, ◌⊎◌, ltb, ltb→lt, Bool-cases, inl, inr, ap, ◌∙◌, if◌then◌else◌,
  true, Option, none, some, List, [], ◌∷◌, ◌++◌, length, All, arith, max_u32,
}
use pm.Entities.Restart.{
  RestartPolicy, RestartDecision, restart, give_up, decide_restart, backoff_delay,
}

-- The counter after a series of exits, each restarted; `none` once the policy has given up.
unfoldable pub survives : RestartPolicy → (uptimes : List ℕ) → ℕ → Option ℕ
survives p [] u = some u
survives p (t ∷ ts) u = elim (decide_restart p (some t) u) [
  | restart _ u' ↦ survives p ts u'
  | give_up _ ↦ none
]

module _ (p : RestartPolicy) (on : p.autorestart ≡ true) where
  unstable_restarts-again :
      (t u : ℕ)
      → t < p.min_uptime_ms
      → u < max_u32
      → (p.max_restarts ≡ 0) ⊎ (suc u < p.max_restarts)
      → (d : ℕ) × (decide_restart p (some t) u ≡ restart d (suc u))
  unfolding decide_restart
  unstable_restarts-again t u short small under =
      (backoff_delay p.restart_delay_ms p.max_restart_delay_ms (suc u), ground arith)

  unstable_trips :
      (t u : ℕ)
      → t < p.min_uptime_ms
      → u < max_u32
      → 0 < p.max_restarts
      → p.max_restarts ≤ suc u
      → decide_restart p (some t) u ≡ give_up (suc u)
  unfolding decide_restart
  unstable_trips t u short small bounded over = ground arith

  -- A series of exits that all come too early, from the counter `u` on.
  survives_iff :
      (ts : List ℕ) (u : ℕ)
      → All (λ t. t < p.min_uptime_ms) ts
      → 0 < p.max_restarts
      → p.max_restarts ≤ max_u32
      → u < p.max_restarts
      → (survives p ts u
          ≡ (if ltb (u + length ts) p.max_restarts then some (u + length ts) else none))
  unfolding survives
  survives_iff [] u early bounded fits room = ground arith
  survives_iff (t ∷ ts) u early bounded fits room = elim (Bool-cases (ltb (suc u) p.max_restarts)) [
    | inl under ↦
        let lower = ltb→lt _ _ under in
        let (d, again) = unstable_restarts-again t u early.0 (omega arith) (inr lower) in
        rw (again, survives)
          (survives_iff ts (suc u) early.1 bounded fits lower
            ∙ ap (λ n. if ltb n p.max_restarts then some n else none) (omega arith))
    | inr over ↦
        rw (unstable_trips t u early.0 (omega arith) bounded (ground arith), survives)
          (ground arith)
  ]

-- Under a policy that restarts and has a limit, a crash loop, that is a series of exits each
-- before `min_uptime_ms`, is restarted as long as it is shorter than `max_restarts`, with its
-- length as the counter, and is given up from there on.
pub survives-crash_loop :
    (p : RestartPolicy) (uptimes : List ℕ)
    → p.autorestart ≡ true
    → 0 < p.max_restarts
    → p.max_restarts ≤ max_u32
    → All (λ t. t < p.min_uptime_ms) uptimes
    → survives p uptimes 0
      ≡ (if ltb (length uptimes) p.max_restarts then some (length uptimes) else none)
survives-crash_loop p ts on bounded fits early =
    survives_iff p on ts 0 early bounded fits bounded
    ∙ ap (λ n. if ltb n p.max_restarts then some n else none) (omega arith)

decide_restart-stable :
    (p : RestartPolicy) (t u : ℕ)
    → p.autorestart ≡ true
    → p.min_uptime_ms ≤ t
    → decide_restart p (some t) u
      ≡ restart (backoff_delay p.restart_delay_ms p.max_restart_delay_ms 0) 0
unfolding decide_restart
decide_restart-stable p t u on long = ground arith

-- Under a policy that restarts, a series of exits in which one comes after at least `min_uptime_ms`
-- ends as the exits behind that one do from the counter 0, if the policy has not given up before: an
-- old crash loop is forgotten.
pub survives-stable :
    (p : RestartPolicy) (before after : List ℕ) (t u : ℕ) {v : ℕ}
    → p.autorestart ≡ true
    → p.min_uptime_ms ≤ t
    → survives p before u ≡ some v
    → survives p (before ++ t ∷ after) u ≡ survives p after 0
unfolding survives
survives-stable p [] after t u on long h = rw (decide_restart-stable p t u on long, survives) refl
survives-stable p (b ∷ before) after t u {v} on long h =
    elim (RestartDecision-cases (decide_restart p (some b) u)) [
      | inl (d, u', e) ↦
          let h' : survives p before u' ≡ some v = rw (e, survives) at h in
          rw (e, survives) (survives-stable p before after t u' on long h')
      | inr (u', e) ↦ let h' : none ≡ some v = rw (e, survives) at h in cc
    ]
  where
    RestartDecision-cases :
        (x : RestartDecision)
        → ((d : ℕ) × (n : ℕ) × (x ≡ restart d n)) ⊎ ((n : ℕ) × (x ≡ give_up n))
    RestartDecision-cases (restart d n) = inl (d, n, refl)
    RestartDecision-cases (give_up n) = inr (n, refl)
