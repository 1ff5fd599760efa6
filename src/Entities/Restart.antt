-- ===== src/Entities/Restart.antt =====
-- entities/src/process/restart.rs
pub mod Backoff
pub mod Breaker
use pm.Base.{
  ℕ, zero, suc, ◌-◌, Bool, true, false, not, ◌&&◌, Option, none, some, ltb, leb, if◌then◌else◌,
  saturating_add, saturating_mul, max_u32, max_u64,
}

pub record RestartPolicy : Type 0 where
  pub autorestart : Bool
  pub min_uptime_ms : ℕ
  pub max_restarts : ℕ
  pub restart_delay_ms : ℕ
  pub max_restart_delay_ms : ℕ

pub data RestartDecision : Type 0 where
  restart : (delay_ms unstable_restarts : ℕ) → RestartDecision
  give_up : (unstable_restarts : ℕ) → RestartDecision

-- The `while` loop: `rounds` is `unstable_restarts - doublings`, which each round lowers by one.
backoff_loop : (rounds delay limit : ℕ) → ℕ
backoff_loop zero delay limit = if ltb limit delay then limit else delay
backoff_loop (suc rounds) delay limit =
    let doubled = saturating_mul max_u64 delay 2 in
    let rest = backoff_loop rounds doubled limit in if leb limit doubled then limit else rest

-- `doublings` starts at 1, so there is no round for 0 or 1 unstable restarts.
unfoldable pub backoff_delay : (base limit unstable_restarts : ℕ) → ℕ
unfolding backoff_loop
backoff_delay base limit unstable_restarts = backoff_loop (unstable_restarts - 1) base limit

next_unstable : (min_uptime_ms : ℕ) → Option ℕ → (previous : ℕ) → ℕ
next_unstable min_uptime_ms none previous = 0
next_unstable min_uptime_ms (some uptime_ms) previous =
    if ltb uptime_ms min_uptime_ms then saturating_add max_u32 previous 1 else 0

unfoldable pub decide_restart : RestartPolicy → Option ℕ → ℕ → RestartDecision
unfolding next_unstable
decide_restart policy last_uptime_ms previous =
    let unstable = next_unstable policy.min_uptime_ms last_uptime_ms previous in
    if not policy.autorestart
    then give_up previous
    else if ltb 0 policy.max_restarts && leb policy.max_restarts unstable
    then give_up unstable
    else restart (backoff_delay policy.restart_delay_ms policy.max_restart_delay_ms unstable)
        unstable
