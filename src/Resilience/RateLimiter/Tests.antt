-- ===== src/Resilience/RateLimiter/Tests.antt =====
-- Runs of the rate limiter, and the theorems about it at concrete inputs.
use unified_ai_orchestrator.Base.{
  ℕ, ◌+◌, ◌*◌, ◌-◌, ◌≤◌, ◌≡◌, ◌≢◌, refl, List, [], ◌∷◌, none, some, arith,
}
use unified_ai_orchestrator.Resilience.RateLimiter.{
  TokenBucket, scale, new_bucket, new_limiter, refill, try_acquire, wait_time, allow, remaining,
  Around, others, acquire, Acquired,
}
use unified_ai_orchestrator.Resilience.RateLimiter.Bounds.{IsValid, granted_in, granted_in-le}
use unified_ai_orchestrator.Resilience.RateLimiter.Waiting.{acquire-one, acquire-over}

program : Unit {0}
unfolding new_bucket new_limiter refill try_acquire wait_time allow remaining others acquire
    granted_in
program = tt

-- Two requests in a minute, at time 0.
abbrev bucket : TokenBucket
bucket = record { capacity = 2; refill_rate = 2; tokens = 120000; last_refill = 0 }

abbrev requests : List (ℕ × ℕ)
requests = (1, 0) ∷ (1, 10) ∷ (1, 20) ∷ (1, 30000) ∷ []

two_a_minute : new_limiter 2 none 0 ≡ bucket
unfolding program
two_a_minute = refl

-- The third request is refused; the fourth finds the token of half a minute.
three_granted : (granted_in bucket requests).0 ≡ 3
unfolding program
three_granted = refl

-- Nobody else calls, and each sleep is three ticks late.
abbrev alone : Around
alone = record {
  pause = λ rounds. 1;
  late = λ rounds. 3;
  between = λ rounds. [];
  asleep = λ rounds. [];
}

-- Another caller takes the token during each sleep.
abbrev contended : Around
contended = record alone { asleep = λ rounds. (1, 30500) ∷ [] }

one_left : (remaining (allow bucket 0).1 0).0 ≡ 1
unfolding program
one_left = refl

half_a_minute : (wait_time (record bucket { tokens = 0 }) 0).0 ≡ some 30000
unfolding program
half_a_minute = refl

-- With two callers and one token, the one that comes late sleeps again.
sleeps_again : acquire 2 (record bucket { tokens = 0 }) 1 0 contended ≡ Acquired.waiting
unfolding program
sleeps_again = refl

-- Without a rate `wait_time` divides by zero.
no_rate :
    acquire 1 (record bucket { refill_rate = 0; tokens = 0 }) 1 5 alone ≡ Acquired.zero_division
unfolding program
no_rate = refl

granted_in-le_example :
    let (n, b') = granted_in bucket requests in
    (n * scale + b'.tokens ≤ 120000 + (30000 - 0) * 2)
    × IsValid b'
    × (b'.capacity ≡ 2)
    × (b'.refill_rate ≡ 2)
granted_in-le_example =
    granted_in-le bucket requests 30000 (omega arith) (omega arith) (omega arith)

acquire-one_example :
    (b' : TokenBucket) × (t : ℕ) × (acquire 2 (record bucket { tokens = 100 }) 1 5 alone
      ≡ Acquired.acquired b' t)
acquire-one_example =
    acquire-one 0 (record bucket { tokens = 100 }) 5 alone (omega arith) (omega arith) (omega arith)
      refl refl

acquire-over_example : acquire 9 bucket 3 5 contended ≢ Acquired.acquired bucket 7
acquire-over_example = acquire-over 9 bucket 3 5 contended bucket 7 (omega arith) (omega arith)
