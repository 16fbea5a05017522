-- ===== src/Resilience/Retry.antt =====
-- python-glue/unified_ai/resilience/retry.py. Delays are whole numbers of a time unit and the
-- exponential base is a natural number, as in the defaults (1.0, 60.0 and 2.0). `random.random()`
-- is k / 2^53 for a k below 2^53, which `delay` takes as its argument.
pub mod Loop
pub mod Delay
mod Tests
use unified_ai_orchestrator.Base.{
  ℕ, zero, suc, ◌+◌, ◌*◌, ◌^◌, Bool, true, false, Option, none, some, List, [], ◌∷◌, ltb, leb, min,
  any, if◌then◌else◌,
}
use unified_ai_orchestrator.Base.Text.{Text, codes, contains}
use unified_ai_orchestrator.Resilience.CircuitBreaker.{Outcome, returned, raised}

pub record RetryPolicy : Type 0 where
  pub max_attempts : ℕ
  pub initial_delay : ℕ
  pub max_delay : ℕ
  pub exponential_base : ℕ
  pub jitter : Bool

abbrev pub random_unit : ℕ
random_unit = 2 ^ 53

-- The delay before jitter.
unfoldable pub base_delay : RetryPolicy → ℕ → ℕ
base_delay p attempt = min (p.initial_delay * p.exponential_base ^ attempt) p.max_delay

-- `RetryPolicy.delay`, in units of which one time unit has `4 * random_unit`, so that the factor
-- 0.75 + random * 0.25 is the whole number `3 * random_unit + random`.
unfoldable pub delay : RetryPolicy → ℕ → ℕ → ℕ
unfolding base_delay
delay p attempt random =
    let d = base_delay p attempt in
    if p.jitter then d * (3 * random_unit + random) else d * (4 * random_unit)

abbrev pub retryable_errors : List Text
retryable_errors =
    codes "ConnectionError" ∷ codes "TimeoutError" ∷ codes "RateLimitError" ∷ codes "HTTPError" ∷ []

-- `any(err in error_type for err in retryable_errors)`
unfoldable pub is_retryable : Text → Bool
is_retryable error_type = any (λ err. contains err error_type) retryable_errors

-- `RetryPolicy.should_retry`; an error is known by the name of its type.
unfoldable pub should_retry : RetryPolicy → ℕ → Text → Bool
should_retry p attempt error_type =
    if leb p.max_attempts attempt then false else is_retryable error_type

-- How a decorated call ends: a value, an exception of the function, or the `TypeError` of
-- `raise None` when the loop was never entered.
pub data Ending (T E : Type 0) : Type 0 where
  value : T → Ending T E
  error : E → Ending T E
  type_error : Ending T E

-- With the ending: how often the function was called, and the delays slept.
pub record Run (T E : Type 0) : Type 0 where
  pub ending : Ending T E
  pub calls : ℕ
  pub delays : List ℕ

module _ {T E : Type 0} where
  raise_last : Option E → Ending T E
  raise_last none = Ending.type_error
  raise_last (some e) = Ending.error e

  slept : ℕ → Option (Run T E) → Option (Run T E)
  slept d none = none
  slept d (some r) = some (record r { delays = d ∷ r.delays })

  -- The loop of `wrapper` on fuel: `func n` is what the call after `n` others does, `error_type`
  -- the name of an exception's type, and `random n` the draw for the delay of attempt `n`. The
  -- callback `on_retry` observes and is taken not to raise.
  unfoldable pub wrapper_loop :
      ℕ → RetryPolicy → (E → Text) → (ℕ → ℕ) → (ℕ → Outcome T E) → ℕ → Option E → Option (Run T E)
  unfolding raise_last slept
  wrapper_loop zero p error_type random func attempt last_error = none
  wrapper_loop (suc fuel) p error_type random func attempt last_error =
      elim (ltb attempt p.max_attempts) [
        | false ↦ some (record { ending = raise_last last_error; calls = attempt; delays = [] })
        | true ↦ elim (func attempt) [
          | returned t ↦ some (record { ending = Ending.value t; calls = attempt + 1; delays = [] })
          | raised e ↦ elim (should_retry p (attempt + 1) (error_type e)) [
            | false ↦ some (record { ending = Ending.error e; calls = attempt + 1; delays = [] })
            | true ↦
                slept (delay p (attempt + 1) (random (attempt + 1)))
                  (wrapper_loop fuel p error_type random func (attempt + 1) (some e))
          ]
        ]
      ]

  -- `wrapper`: the loop begins at attempt 0 with no error, and needs one round more than attempts.
  unfoldable pub wrapper : RetryPolicy → (E → Text) → (ℕ → ℕ) → (ℕ → Outcome T E) → Option (Run T E)
  wrapper p error_type random func =
      wrapper_loop (suc p.max_attempts) p error_type random func 0 none
