-- ===== src/Resilience/Retry/Delay.antt =====
-- The delays of `RetryPolicy`.
use native.Mathlib.Nat.{mul-le-mul_left, mul-le-mul_right, pow-le-pow_right}
use unified_ai_orchestrator.Base.{ℕ, ◌+◌, ◌*◌, ◌^◌, ◌≤◌, ◌<◌, ◌≡◌, false, arith}
use unified_ai_orchestrator.Resilience.Retry.{RetryPolicy, random_unit, base_delay, delay}

base_delay-le : (p : RetryPolicy) (attempt : ℕ) → base_delay p attempt ≤ p.max_delay
unfolding base_delay
base_delay-le p attempt = omega arith

-- Jitter only shortens: the delay of an attempt lies between three quarters of its base delay and
-- the whole of it, and is never more than the maximal delay.
pub delay_bounds :
    (p : RetryPolicy) (attempt random : ℕ)
    → random < random_unit
    → (base_delay p attempt * (3 * random_unit) ≤ delay p attempt random)
      × (delay p attempt random ≤ base_delay p attempt * (4 * random_unit))
      × (delay p attempt random ≤ p.max_delay * (4 * random_unit))
unfolding delay
delay_bounds p attempt random h =
    let d = base_delay p attempt in
    let low : d * (3 * random_unit) ≤ d * (3 * random_unit + random) =
      mul-le-mul_left d (omega arith) in
    let high : d * (3 * random_unit + random) ≤ d * (4 * random_unit) =
      mul-le-mul_left d (omega arith) in
    let wide : d * (3 * random_unit) ≤ d * (4 * random_unit) = mul-le-mul_left d (omega arith) in
    let cap : d * (4 * random_unit) ≤ p.max_delay * (4 * random_unit) =
      mul-le-mul_right (4 * random_unit) (base_delay-le p attempt) in
    (ground (arith, low, wide), ground (arith, high), ground (arith, high, cap))

base_delay_mono :
    (p : RetryPolicy) (n k : ℕ) → 0 < p.exponential_base → base_delay p n ≤ base_delay p (n + k)
unfolding base_delay
base_delay_mono p n k b =
    let e : p.exponential_base ^ n ≤ p.exponential_base ^ (n + k) =
      pow-le-pow_right b (omega arith) in
    omega (arith, mul-le-mul_left p.initial_delay e)

-- Without jitter the delays never fall: a later attempt sleeps at least as long, if the base is
-- positive.
pub delay_mono :
    (p : RetryPolicy) (n k random random' : ℕ)
    → p.jitter ≡ false
    → 0 < p.exponential_base
    → delay p n random ≤ delay p (n + k) random'
unfolding delay
delay_mono p n k random random' j b =
    let m = mul-le-mul_right (4 * random_unit) (base_delay_mono p n k b) in ground (arith, m)
