-- ===== src/Resilience/CircuitBreaker/Schedule.antt =====
-- `CircuitBreaker` over time: concurrent calls as interleaved steps, and runs of calls that all
-- fail or all succeed.
use unified_ai_orchestrator.Base.{
  ℕ, suc, ◌+◌, ◌≤◌, ◌<◌, ◌≡◌, ◌≢◌, refl, true, false, List, [], ◌∷◌, length, some, arith, ltb,
  if◌then◌else◌,
}
use unified_ai_orchestrator.Resilience.CircuitBreaker.{
  CircuitState, CircuitBreaker, check_state, on_success, on_failure, is_open, call, new, Outcome,
  CallResult, returned, raised,
}
use unified_ai_orchestrator.Resilience.CircuitBreaker.Invariant.{
  IsValid, new-IsValid, check_state-IsValid, on_success-IsValid, on_failure-IsValid,
}

-- A breaker with the number of calls that have passed its guard and await their function.
pub record Shared : Type 0 where
  pub breaker : CircuitBreaker
  pub in_flight : ℕ

-- One step of one of the calls that share the breaker, at any reading of the clock.
pub data Step (s u : Shared) : Type 0 where
  start :
      (now : ℕ)
      → is_open (check_state s.breaker now).state ≡ false
      → u ≡ record { breaker = check_state s.breaker now; in_flight = suc s.in_flight }
      → Step s u
  refuse :
      (now : ℕ)
      → is_open (check_state s.breaker now).state ≡ true
      → u ≡ record { breaker = check_state s.breaker now; in_flight = s.in_flight }
      → Step s u
  succeed : s.in_flight ≡ suc u.in_flight → u.breaker ≡ on_success s.breaker → Step s u
  fail : (now : ℕ) → s.in_flight ≡ suc u.in_flight → u.breaker ≡ on_failure s.breaker now → Step s u

pub data Reach (s : Shared) : Shared → Type 0 where
  here : Reach s s
  next : {t u : Shared} → Reach s t → Step t u → Reach s u

Step-IsValid : (s u : Shared) → Step s u → IsValid s.breaker → IsValid u.breaker
Step-IsValid s u (start now g e) v = rw e (check_state-IsValid now v)
Step-IsValid s u (refuse now g e) v = rw e (check_state-IsValid now v)
Step-IsValid s u (succeed n e) v = rw e (on_success-IsValid v)
Step-IsValid s u (fail now n e) v = rw e (on_failure-IsValid now v)

reached_keeps : {s u : Shared} → IsValid s.breaker → Reach s u → IsValid u.breaker
reached_keeps v here = v
reached_keeps v (next {t} {u} r st) = Step-IsValid t u st (reached_keeps v r)

-- However calls interleave and whatever the clock reads, a breaker that was made with positive
-- thresholds keeps its invariant: closed, it has counted fewer failures than its threshold; half
-- open, fewer successes than its threshold; half open or open, it has the time of a failure.
pub Reach-IsValid :
    (f s t : ℕ) {u : Shared}
    → 0 < f
    → 0 < s
    → Reach (record { breaker = new f s t; in_flight = 0 }) u
    → IsValid u.breaker
Reach-IsValid f s t hf hs r = reached_keeps (new-IsValid f s t hf hs) r

-- Until the timeout has passed since the last failure (at a time other than 0), an open breaker
-- refuses every call, does not run the function and stays as it is; from then on a call goes as on
-- a half open breaker without successes.
pub call-open :
    {W T E : Type 0} (func : W → Outcome T E × W) (b : CircuitBreaker) (last now done : ℕ) (w : W)
    → b.state ≡ CircuitState.open_state
    → b.last_failure_time ≡ some last
    → last ≢ 0
    → call func b now done w ≡ (
        if ltb now (b.timeout + last)
        then (CallResult.refused, b, w)
        else call func (record b { state = CircuitState.half_open; successes = 0 }) now done w)
unfolding call
call-open func b last now done w o l nz = ground arith

-- What one call leaves, if its function ends with `r`.
unfoldable pub attempt : {T E : Type 0} → Outcome T E → CircuitBreaker → ℕ × ℕ → CircuitBreaker
attempt r b (now, done) = (call (λ (w : Unit {0}). (r, w)) b now done tt).1

-- A run of calls, each from a reading of the clock to another, whose functions end alike.
unfoldable pub attempts :
    {T E : Type 0} → Outcome T E → List (ℕ × ℕ) → CircuitBreaker → CircuitBreaker
attempts r [] b = b
attempts r (t ∷ ts) b = attempts r ts (attempt r b t)

-- A breaker is closed with so many failures, or half open with so many successes.
abbrev pub ClosedAt : ℕ → CircuitBreaker → Type 0
ClosedAt n b = (b.state ≡ CircuitState.closed) × (b.failures ≡ n)

abbrev pub HalfOpenAt : ℕ → CircuitBreaker → Type 0
HalfOpenAt n b = (b.state ≡ CircuitState.half_open) × (b.successes ≡ n)

module _ (T E : Type 0) (e : E) where
  attempt_fail :
      (b : CircuitBreaker) (n : ℕ) (t : ℕ × ℕ)
      → ClosedAt n b
      → suc n < b.failure_threshold
      → ClosedAt (suc n) (attempt {T = T} (raised e) b t)
        × ((attempt {T = T} (raised e) b t).failure_threshold ≡ b.failure_threshold)
  unfolding attempt call on_failure
  attempt_fail b n t h lt = ground arith

  attempt_trip :
      (b : CircuitBreaker) (n : ℕ) (t : ℕ × ℕ)
      → ClosedAt n b
      → suc n ≡ b.failure_threshold
      → (attempt {T = T} (raised e) b t).state ≡ CircuitState.open_state
  unfolding attempt call on_failure
  attempt_trip b n t h lt = ground arith

  -- A closed breaker opens exactly at its threshold: a run of failures that keeps the count below
  -- the threshold leaves it closed, and one that reaches the threshold opens it.
  pub attempts-fail :
      (ts : List (ℕ × ℕ)) (b : CircuitBreaker) (n : ℕ)
      → ClosedAt n b
      → n < b.failure_threshold
      → n + length ts ≤ b.failure_threshold
      → (attempts {T = T} (raised e) ts b).state ≡ (
          if ltb (n + length ts) b.failure_threshold
          then CircuitState.closed
          else CircuitState.open_state)
  unfolding attempts
  attempts-fail [] b n h lt le = ground arith
  attempts-fail (t ∷ []) b n h lt le = ground (arith, attempt_fail b n t h, attempt_trip b n t h)
  attempts-fail (t ∷ t' ∷ ts) b n h lt le =
      let (c, f) = attempt_fail b n t h (omega arith) in
      ground (
        arith,
        f,
        attempts-fail (t' ∷ ts) (attempt {T = T} (raised e) b t) (suc n) c (omega arith)
            (omega arith),
      )

module _ (T E : Type 0) (a : T) where
  attempt_success :
      (b : CircuitBreaker) (n : ℕ) (t : ℕ × ℕ)
      → HalfOpenAt n b
      → suc n < b.success_threshold
      → HalfOpenAt (suc n) (attempt {E = E} (returned a) b t)
        × ((attempt {E = E} (returned a) b t).success_threshold ≡ b.success_threshold)
  unfolding attempt call on_success
  attempt_success b n t h lt = ground arith

  attempt_close :
      (b : CircuitBreaker) (n : ℕ) (t : ℕ × ℕ)
      → HalfOpenAt n b
      → suc n ≡ b.success_threshold
      → ClosedAt 0 (attempt {E = E} (returned a) b t)
  unfolding attempt call on_success
  attempt_close b n t h lt = ground arith

  attempts-close :
      (ts : List (ℕ × ℕ)) (b : CircuitBreaker) (n : ℕ)
      → HalfOpenAt n b
      → n < b.success_threshold
      → n + length ts ≡ b.success_threshold
      → ClosedAt 0 (attempts {E = E} (returned a) ts b)
  unfolding attempts
  attempts-close [] b n h lt le = absurd (omega arith)
  attempts-close (t ∷ []) b n h lt le = attempt_close b n t h (omega arith)
  attempts-close (t ∷ t' ∷ ts) b n h lt le =
      let (c, f) = attempt_success b n t h (omega arith) in
      attempts-close (t' ∷ ts) (attempt {E = E} (returned a) b t) (suc n) c (omega arith)
        (omega arith)

  attempt_reopen :
      (b : CircuitBreaker) (last : ℕ) (t : ℕ × ℕ)
      → b.state ≡ CircuitState.open_state
      → b.last_failure_time ≡ some last
      → last ≢ 0
      → b.timeout + last ≤ t.0
      → attempt {E = E} (returned a) b t
        ≡ attempt {E = E}
            (returned a)
            (record b { state = CircuitState.half_open; successes = 0 })
            t
  unfolding attempt call on_success
  attempt_reopen b last t o l nz late = ground arith

  -- An open breaker recovers: when the timeout has passed since its last failure (at a time other
  -- than 0), as many successful calls in a row as its success threshold close it again, with no
  -- failure counted.
  pub attempts-recover :
      (ts : List (ℕ × ℕ)) (t : ℕ × ℕ) (b : CircuitBreaker) (last : ℕ)
      → b.state ≡ CircuitState.open_state
      → b.last_failure_time ≡ some last
      → last ≢ 0
      → b.timeout + last ≤ t.0
      → suc (length ts) ≡ b.success_threshold
      → ClosedAt 0 (attempts {E = E} (returned a) (t ∷ ts) b)
  unfolding attempts
  attempts-recover ts t b last o l nz late len =
      rw (attempts, attempt_reopen b last t o l nz late)
        (attempts-close (t ∷ ts) (record b { state = CircuitState.half_open; successes = 0 }) 0
          (refl, refl) (omega arith) (omega arith))
