-- ===== src/Entities/Restart/Backoff.antt =====
-- The delay before a restart, against its closed form.
use native.Mathlib.Nat.{pow-suc}
use pm.Base.{ℕ, zero, suc, ◌-◌, ◌*◌, ◌^◌, ◌≤◌, min, ◌≡◌, arith, max_u64, saturating_mul}
use pm.Entities.Restart.{backoff_loop, backoff_delay}

pow_pos : (r : ℕ) → 1 ≤ 2 ^ r
pow_pos zero = omega arith
pow_pos (suc r) = rw pow-suc (omega (arith, pow_pos r))

le-mul_pow : (d r : ℕ) → d ≤ d * 2 ^ r
le-mul_pow d r = let power = pow_pos r in grind arith

backoff_loop-eq :
    (r delay limit : ℕ) → limit ≤ max_u64 → backoff_loop r delay limit ≡ min limit (delay * 2 ^ r)
unfolding backoff_loop
backoff_loop-eq zero delay limit h = ground arith
backoff_loop-eq (suc r) delay limit h =
    let more = le-mul_pow delay r in
    let regrouped : delay * 2 ^ suc r ≡ delay * 2 * 2 ^ r = rw pow-suc (omega arith) in
    rw regrouped (ground (arith, backoff_loop-eq r (saturating_mul max_u64 delay 2) limit h))

-- For a limit that a u64 holds, the delay is the base doubled once for each unstable restart after
-- the first, and never more than the limit; the saturation of the product is not seen.
pub backoff_delay-eq :
    (base limit n : ℕ)
    → limit ≤ max_u64
    → backoff_delay base limit n ≡ min limit (base * 2 ^ (n - 1))
unfolding backoff_delay
backoff_delay-eq base limit n h = backoff_loop-eq (n - 1) base limit h
