-- ===== src/Resilience/CircuitBreaker/Tests.antt =====
-- Runs of the circuit breaker, and the theorems about it at concrete inputs.
use unified_ai_orchestrator.Base.{
  ℕ, ◌+◌, ◌≡◌, refl, List, [], ◌∷◌, none, some, arith, ltb, if◌then◌else◌,
}
use unified_ai_orchestrator.Resilience.CircuitBreaker.{
  CircuitState, CircuitBreaker, new, check_state, on_success, on_failure, is_open, call, Outcome,
  returned, raised,
}
use unified_ai_orchestrator.Resilience.CircuitBreaker.Invariant.{IsValid}
use unified_ai_orchestrator.Resilience.CircuitBreaker.Schedule.{
  Shared, Step, Reach, Reach-IsValid, attempt, attempts, attempts-fail, attempts-recover, ClosedAt,
}

program : Unit {0}
unfolding new check_state on_success on_failure is_open call attempt attempts
program = tt

-- The defaults of the source, with times in milliseconds.
abbrev breaker : CircuitBreaker
breaker = record {
  failure_threshold = 5;
  success_threshold = 2;
  timeout = 60000;
  state = CircuitState.closed;
  failures = 0;
  successes = 0;
  last_failure_time = none;
}

abbrev tripped : CircuitBreaker
tripped = record breaker {
  state = CircuitState.open_state;
  failures = 5;
  last_failure_time = some 1000;
}

abbrev boom : Outcome ℕ ℕ
boom = raised 7

abbrev early : List (ℕ × ℕ)
early = (1, 2) ∷ (3, 4) ∷ (5, 6) ∷ (7, 8) ∷ (9, 1000) ∷ []

new_breaker : new 5 2 60000 ≡ breaker
unfolding program
new_breaker = refl

five_failures : attempts boom early breaker ≡ tripped
unfolding program
five_failures = refl

-- A call that succeeds late, after the breaker has opened, resets the failures and not the state.
late_success : on_success tripped ≡ record tripped { failures = 0 }
unfolding program
late_success = refl

abbrev shared : Shared
shared = record { breaker = breaker; in_flight = 0 }

one_in_flight :
    Reach
      (record { breaker = new 5 2 60000; in_flight = 0 })
      (record { breaker = breaker; in_flight = 1 })
unfolding program
one_in_flight = Reach.next Reach.here (Step.start 10 refl refl)

Reach-IsValid_example : IsValid breaker
Reach-IsValid_example = Reach-IsValid 5 2 60000 (omega arith) (omega arith) one_in_flight

abbrev count_up : ℕ → Outcome ℕ ℕ × ℕ
count_up w = (returned w, w + 1)

attempts-fail_example :
    (attempts boom early breaker).state
    ≡ (if ltb 5 5 then CircuitState.closed else CircuitState.open_state)
attempts-fail_example = attempts-fail ℕ ℕ 7 early breaker 0 (refl, refl) (omega arith) (omega arith)

attempts-recover_example :
    ClosedAt 0
      (attempts {T = ℕ} {E = ℕ} (returned 4) ((61000, 61001) ∷ (61002, 61003) ∷ []) tripped)
attempts-recover_example =
    attempts-recover ℕ ℕ 4 ((61002, 61003) ∷ []) (61000, 61001) tripped 1000 refl refl (omega arith)
      (omega arith) refl
