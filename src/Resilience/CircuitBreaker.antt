-- ===== src/Resilience/CircuitBreaker.antt =====
-- python-glue/unified_ai/resilience/circuit_breaker.py. Times are ticks of one clock that reads as
-- a natural number; each method that reads `time.time()` takes the reading as its argument. The
-- lock makes every method one step, and `call` is the steps around the awaited function.
pub mod Invariant
pub mod Schedule
mod Tests
use unified_ai_orchestrator.Base.{
  ℕ, ◌+◌, Bool, true, false, Option, none, some, leb, ◌==◌, if◌then◌else◌, ◌⊎◌, inl, inr, ◌≡◌, refl,
}

pub data CircuitState : Type 0 where
  closed open_state half_open : CircuitState

pub record CircuitBreaker : Type 0 where
  pub failure_threshold : ℕ
  pub success_threshold : ℕ
  pub timeout : ℕ
  pub state : CircuitState
  pub failures : ℕ
  pub successes : ℕ
  pub last_failure_time : Option ℕ

-- A new breaker: the fields with `init=False` take their defaults.
unfoldable pub new : ℕ → ℕ → ℕ → CircuitBreaker
new failure_threshold success_threshold timeout = record {
  failure_threshold = failure_threshold;
  success_threshold = success_threshold;
  timeout = timeout;
  state = CircuitState.closed;
  failures = 0;
  successes = 0;
  last_failure_time = none;
}

-- `if self._last_failure_time:` fails on `None` and on the reading 0. `now - last >= timeout` is
-- written without a subtraction, so a clock that went back never passes the test.
unfoldable pub timed_out : Option ℕ → ℕ → ℕ → Bool
timed_out none timeout now = false
timed_out (some last) timeout now = if last == 0 then false else leb (timeout + last) now

check_open : CircuitState → CircuitBreaker → ℕ → CircuitBreaker
check_open CircuitState.open_state b now =
    if timed_out b.last_failure_time b.timeout now
    then record b { state = CircuitState.half_open; successes = 0 }
    else b
check_open CircuitState.closed b now = b
check_open CircuitState.half_open b now = b

-- `_check_state`
unfoldable pub check_state : CircuitBreaker → ℕ → CircuitBreaker
unfolding check_open timed_out
check_state b now = check_open b.state b now

count_success : CircuitState → CircuitBreaker → CircuitBreaker
count_success CircuitState.half_open b =
    if leb b.success_threshold (b.successes + 1)
    then record b { state = CircuitState.closed; successes = 0 }
    else record b { successes = b.successes + 1 }
count_success CircuitState.closed b = b
count_success CircuitState.open_state b = b

-- `_on_success`
unfoldable pub on_success : CircuitBreaker → CircuitBreaker
unfolding count_success
on_success b = count_success b.state (record b { failures = 0 })

trip : CircuitState → CircuitBreaker → CircuitBreaker
trip CircuitState.half_open b = record b { state = CircuitState.open_state }
trip CircuitState.closed b =
    if leb b.failure_threshold b.failures then record b { state = CircuitState.open_state } else b
trip CircuitState.open_state b = b

-- `_on_failure`
unfoldable pub on_failure : CircuitBreaker → ℕ → CircuitBreaker
unfolding trip
on_failure b now =
    trip b.state (record b { failures = b.failures + 1; last_failure_time = some now })

unfoldable pub is_open : CircuitState → Bool
is_open CircuitState.open_state = true
is_open CircuitState.closed = false
is_open CircuitState.half_open = false

-- What an awaited function does, and what `call` does: it returns, it raises the function's
-- exception, or it refuses with the `RuntimeError` of an open circuit.
pub data Outcome (T E : Type 0) : Type 0 where
  returned : T → Outcome T E
  raised : E → Outcome T E

pub data CallResult (T E : Type 0) : Type 0 where
  value : T → CallResult T E
  error : E → CallResult T E
  refused : CallResult T E

-- The part of `call` behind the guard: the function ran from the world `w`, and ended at `done`.
finish : {T E : Type 0} → Outcome T E → CircuitBreaker → ℕ → CallResult T E × CircuitBreaker
finish (returned t) b done = (CallResult.value t, on_success b)
finish (raised e) b done = (CallResult.error e, on_failure b done)

-- `call`, with nothing else between its steps. `func` changes a world of its own, which shows
-- whether it was called.
unfoldable pub call :
    {W T E : Type 0}
    → (W → Outcome T E × W)
    → CircuitBreaker
    → ℕ
    → ℕ
    → W
    → CallResult T E × CircuitBreaker × W
unfolding check_state finish is_open
call func b now done w =
    let b' = check_state b now in
    if is_open b'.state
    then (CallResult.refused, b', w)
    else (let (r, w') = func w in let (res, b'') = finish r b' done in (res, b'', w'))

pub Outcome-cases :
    {T E : Type 0} (r : Outcome T E) → ((t : T) × (r ≡ returned t)) ⊎ ((e : E) × (r ≡ raised e))
Outcome-cases (returned t) = inl (t, refl)
Outcome-cases (raised e) = inr (e, refl)
