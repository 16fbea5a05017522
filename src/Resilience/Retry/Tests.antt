-- ===== src/Resilience/Retry/Tests.antt =====
-- Runs of the retry loop, and the theorems about it at concrete inputs.
use unified_ai_orchestrator.Base.{
  ℕ, zero, suc, ◌+◌, ◌*◌, ◌<◌, ◌≡◌, refl, false, [], ◌∷◌, some, arith,
}
use unified_ai_orchestrator.Base.Text.{Text, codes}
use unified_ai_orchestrator.Resilience.CircuitBreaker.{Outcome, returned, raised}
use unified_ai_orchestrator.Resilience.Retry.{
  RetryPolicy, random_unit, delay, is_retryable, should_retry, Ending, wrapper_loop, wrapper,
}
use unified_ai_orchestrator.Resilience.Retry.Loop.{verdict, GoesOn, delays_from, wrapper-verdict}

program : Unit {0}
unfolding delay is_retryable should_retry wrapper_loop wrapper
program = tt

-- The defaults of the source, in seconds.
abbrev policy : RetryPolicy
policy = record {
  max_attempts = 3;
  initial_delay = 1;
  max_delay = 60;
  exponential_base = 2;
  jitter = false;
}

-- A function that fails twice; an error is the name of its type.
abbrev flaky : ℕ → Outcome ℕ Text
flaky zero = raised (codes "ConnectTimeoutError")
flaky (suc zero) = raised (codes "RateLimitError")
flaky (suc (suc n)) = returned 5

abbrev same : Text → Text
same t = t

third_try :
    wrapper policy same (λ _. 0) flaky
    ≡ some (record {
      ending = Ending.value 5;
      calls = 3;
      delays = 2 * (4 * random_unit) ∷ 4 * (4 * random_unit) ∷ [];
    })
unfolding program
third_try = refl

not_retryable : is_retryable (codes "ValueError") ≡ false
unfolding program
not_retryable = refl

wrapper-verdict_example :
    (k : ℕ) × (r : Ending ℕ Text) × GoesOn policy same (λ _. 0) flaky 0 k
    × (verdict policy same (λ _. 0) flaky k ≡ some r)
    × (k < 3)
    × (wrapper policy same (λ _. 0) flaky
        ≡ some (record {
          ending = r;
          calls = k + 1;
          delays = delays_from policy same (λ _. 0) flaky 0 k;
        }))
wrapper-verdict_example = wrapper-verdict policy same (λ _. 0) flaky (omega arith)
