-- ===== src/Resilience/CircuitBreaker/Invariant.antt =====
-- The invariant of `CircuitBreaker` and how each method keeps it.
use unified_ai_orchestrator.Base.{ℕ, ◌<◌, ◌≡◌, true, is_some, arith}
use unified_ai_orchestrator.Resilience.CircuitBreaker.{
  CircuitState, CircuitBreaker, new, check_state, on_success, on_failure,
}

-- A closed breaker has fewer failures than its threshold, a half open one fewer successes, and a
-- breaker that is not closed knows when it last failed.
abbrev pub Counts : CircuitState → CircuitBreaker → Type 0
Counts CircuitState.closed b = b.failures < b.failure_threshold
Counts CircuitState.half_open b =
    (b.successes < b.success_threshold) × (is_some b.last_failure_time ≡ true)
Counts CircuitState.open_state b = is_some b.last_failure_time ≡ true

pub record IsValid (b : CircuitBreaker) : Type 0 where
  pub trips : 0 < b.failure_threshold
  pub recovers : 0 < b.success_threshold
  pub counts : Counts b.state b

pub new-IsValid : (f s t : ℕ) → 0 < f → 0 < s → IsValid (new f s t)
unfolding new
new-IsValid f s t hf hs = record { trips = hf; recovers = hs; counts = hf }

module _ {b : CircuitBreaker} where
  pub check_state-IsValid : (now : ℕ) → IsValid b → IsValid (check_state b now)
  unfolding check_state
  check_state-IsValid now v = ground arith

  pub on_success-IsValid : IsValid b → IsValid (on_success b)
  unfolding on_success
  on_success-IsValid v = ground arith

  pub on_failure-IsValid : (now : ℕ) → IsValid b → IsValid (on_failure b now)
  unfolding on_failure
  on_failure-IsValid now v = ground arith
