-- ===== src/Jobs/Finalise/Retries.antt =====
-- The delay that `backoff_interval` gives a retry.
use release_engine.Prelude.{ℕ, ◌≤◌, ◌*◌, ◌^◌, ◌-◌, arith}
use native.Mathlib.Nat.{mul-le-mul_left, pow-le-pow_right}
use release_engine.Jobs.Table.{BackoffPolicy, backoff_seconds, or_default}

-- The delay before a retry never shrinks from one attempt to a later one, and never exceeds the
-- policy's maximum, 300 seconds by default.
pub backoff_seconds_monotone :
    (policy : BackoffPolicy) (a b : ℕ)
    → a ≤ b
    → (backoff_seconds a policy ≤ backoff_seconds b policy)
      × (backoff_seconds b policy ≤ or_default 300 policy.max_seconds)
unfolding backoff_seconds
backoff_seconds_monotone policy a b h =
    let base = or_default 2 policy.base_seconds in
    let grown : base * 2 ^ (a - 1) ≤ base * 2 ^ (b - 1) =
      mul-le-mul_left base (pow-le-pow_right {n = 2} (ground arith) (ground arith)) in
    (ground (arith, grown), ground arith)
