-- ===== src/Worker/Attempts/Delays.antt =====
-- The retry delay of packages/worker/src/index.ts.
use bek.Common.{ℕ, zero, suc, ◌-◌, ◌*◌, ◌^◌, ◌≤◌, min, ◌≡◌, true, some, arith}
use native.Mathlib.Nat.{pow-suc, mul-pos, mul-le-mul_left}
use bek.Worker.Types.{WorkerRetryPolicy}
use bek.Worker.Attempts.{assert_retry_policy, retry_delay_ms}

pow-pos : (n : ℕ) → 1 ≤ 2 ^ n
pow-pos zero = omega arith
pow-pos (suc n) = omega (arith, pow-suc 2 n, pow-pos n)

pow_mono : (m n : ℕ) → m ≤ n → 2 ^ m ≤ 2 ^ n
pow_mono m zero h = let e : m ≡ 0 = omega arith in rw e (omega arith)
pow_mono zero (suc n) h = pow-pos (suc n)
pow_mono (suc m) (suc n) h = omega (arith, pow-suc 2 m, pow-suc 2 n, pow_mono m n (omega arith))

assert_retry_policy-base :
    (policy : WorkerRetryPolicy)
    → assert_retry_policy policy ≡ true
    → (1 ≤ policy.max_attempts) × (1 ≤ policy.base_delay_ms) × (1 ≤ policy.max_delay_ms)
unfolding assert_retry_policy
assert_retry_policy-base policy ok = ground arith

-- A policy that is accepted gives a delay to every attempt. It is positive and no longer than the
-- policy's longest, and a later attempt does not wait less than an earlier one.
pub retry_delay_ms_bounds :
    (m n : ℕ) (policy : WorkerRetryPolicy)
    → assert_retry_policy policy ≡ true
    → m ≤ n
    → (d e : ℕ) × (retry_delay_ms m policy ≡ some d)
      × (retry_delay_ms n policy ≡ some e)
      × (1 ≤ d)
      × (d ≤ e)
      × (e ≤ policy.max_delay_ms)
unfolding retry_delay_ms
retry_delay_ms_bounds m n policy ok le =
    let facts = assert_retry_policy-base policy ok in
    let least : 1 ≤ policy.base_delay_ms * 2 ^ (m - 1) = mul-pos facts.1 (pow-pos (m - 1)) in
    let grows : policy.base_delay_ms * 2 ^ (m - 1) ≤ policy.base_delay_ms * 2 ^ (n - 1) =
      mul-le-mul_left policy.base_delay_ms (pow_mono (m - 1) (n - 1) (omega arith)) in
    (
      min policy.max_delay_ms (policy.base_delay_ms * 2 ^ (m - 1)),
      min policy.max_delay_ms (policy.base_delay_ms * 2 ^ (n - 1)),
      rw ok,
      rw ok,
      omega arith,
      omega arith,
      omega arith,
    )
