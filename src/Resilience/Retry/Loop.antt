-- ===== src/Resilience/Retry/Loop.antt =====
-- The retry loop.
use native.Mathlib.Nat.{add-zero, zero-add}
use unified_ai_orchestrator.Base.{
  ℕ, zero, suc, ◌+◌, ◌-◌, ◌∙◌, ap, sym, ◌<◌, ◌≡◌, Option, none, some, List, [], ◌∷◌, arith, ltb,
  ◌&&◌, if◌then◌else◌, inl, inr, Option-cases,
}
use unified_ai_orchestrator.Base.Text.{Text}
use unified_ai_orchestrator.Resilience.CircuitBreaker.{Outcome, returned, raised, Outcome-cases}
use unified_ai_orchestrator.Resilience.Retry.{
  RetryPolicy, delay, is_retryable, should_retry, Ending, Run, wrapper_loop, wrapper, raise_last,
  slept,
}

module _ {T E : Type 0} (p : RetryPolicy) (error_type : E → Text) (random : ℕ → ℕ)
    (func : ℕ → Outcome T E) where
  -- How the run ends at the call `n`, or `none` if another call follows: that is after an error
  -- that may be retried, if the attempts allow one more.
  pub verdict : ℕ → Option (Ending T E)
  verdict n = elim (func n) [
    | returned t ↦ some (Ending.value t)
    | raised e ↦
        if ltb (n + 1) p.max_attempts && is_retryable (error_type e)
        then none
        else some (Ending.error e)
  ]

  -- Another call follows each of the `k` calls from `n` on.
  abbrev pub GoesOn : ℕ → ℕ → Type 0
  GoesOn n zero = Unit
  GoesOn n (suc k) = (verdict n ≡ none) × GoesOn (n + 1) k

  -- The delays after the `k` calls from `n` on.
  abbrev pub delays_from : ℕ → ℕ → List ℕ
  delays_from n zero = []
  delays_from n (suc k) = delay p (n + 1) (random (n + 1)) ∷ delays_from (n + 1) k

  abbrev run_of : ℕ → ℕ → Ending T E → Run T E
  run_of n k r = record { ending = r; calls = n + k + 1; delays = delays_from n k }

  loop_ends :
      (fuel n : ℕ) (last : Option E) (r : Ending T E)
      → n < p.max_attempts
      → verdict n ≡ some r
      → wrapper_loop (suc fuel) p error_type random func n last ≡ some (run_of n 0 r)
  unfolding wrapper_loop should_retry verdict
  loop_ends fuel n last r lt v = ground arith

  loop_goes_on :
      (fuel n : ℕ) (last : Option E)
      → n < p.max_attempts
      → verdict n ≡ none
      → (e : E) × (wrapper_loop (suc fuel) p error_type random func n last
          ≡ slept
              (delay p (n + 1) (random (n + 1)))
              (wrapper_loop fuel p error_type random func (n + 1) (some e)))
        × (n + 1 < p.max_attempts)
  unfolding wrapper_loop should_retry verdict
  loop_goes_on fuel n last lt v = elim (Outcome-cases (func n)) [
    | inl (t, r) ↦ ground arith
    | inr (e, r) ↦ (e, ground arith, ground arith)
  ]

  slept_run :
      (n k : ℕ) (r : Ending T E)
      → slept (delay p (n + 1) (random (n + 1))) (some (run_of (n + 1) k r))
        ≡ some (run_of n (suc k) r)
  unfolding slept
  slept_run n k r = ground arith

  loop_total :
      (m fuel n : ℕ) (last : Option E)
      → n + suc m ≡ p.max_attempts
      → m < fuel
      → (k : ℕ) × (r : Ending T E) × GoesOn n k
        × (verdict (n + k) ≡ some r)
        × (n + k < p.max_attempts)
        × (wrapper_loop fuel p error_type random func n last ≡ some (run_of n k r))
  loop_total m zero n last h lt = absurd (omega arith)
  loop_total m (suc fuel) n last h lt = elim (Option-cases (verdict n)) [
    | inl on ↦
        let (e, step, more) = loop_goes_on fuel n last (omega arith) on in
        let (k, r, before, ends, lt', run) =
          loop_total (m - 1) fuel (n + 1) (some e) (omega arith) (omega arith) in
        let shift : n + 1 + k ≡ n + suc k = omega arith in
        (
          suc k,
          r,
          (on, before),
          rw shift at ends,
          omega arith,
          step ∙ ap (slept (delay p (n + 1) (random (n + 1)))) run ∙ slept_run n k r,
        )
    | inr (r, ends) ↦
        (0, r, tt, rw add-zero ends, omega arith, loop_ends fuel n last r (omega arith) ends)
  ]

  -- With at least one attempt allowed, a decorated call always ends, and by its first call with a
  -- verdict: after some calls, fewer than `max_attempts`, that each raised an error that may be
  -- retried, one returns, or raises an error that may not be retried, or is the last one allowed.
  -- The ending is that call's, the calls are counted up to it, and between two calls the loop slept
  -- the delay of its attempt.
  pub wrapper-verdict :
      0 < p.max_attempts
      → (k : ℕ) × (r : Ending T E) × GoesOn 0 k
        × (verdict k ≡ some r)
        × (k < p.max_attempts)
        × (wrapper p error_type random func
            ≡ some (record { ending = r; calls = k + 1; delays = delays_from 0 k }))
  unfolding wrapper
  wrapper-verdict h =
      let (k, r, before, ends, lt, run) =
        loop_total (p.max_attempts - 1) (suc p.max_attempts) 0 none (omega arith) (omega arith) in
      let calls : 0 + k ≡ k = zero-add k in
      (
        k,
        r,
        before,
        ap verdict (sym calls) ∙ ends,
        omega arith,
        run ∙ ap (λ (c : ℕ). some (record (run_of 0 k r) { calls = c + 1 })) calls,
      )

  -- With no attempt allowed the function is never called, and the call ends by a `TypeError`.
  wrapper-zero :
      p.max_attempts ≡ 0
      → wrapper p error_type random func
        ≡ some (record { ending = Ending.type_error; calls = 0; delays = [] })
  unfolding wrapper wrapper_loop raise_last
  wrapper-zero h = ground arith
