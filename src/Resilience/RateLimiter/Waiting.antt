-- ===== src/Resilience/RateLimiter/Waiting.antt =====
-- `RateLimiter.acquire`: when it returns, and when it cannot.
use native.Mathlib.Nat.{div-add-mod', mod-lt, mul-le-mul_right, mul-pos}
use unified_ai_orchestrator.Base.{
  ℕ, zero, suc, ◌+◌, ◌-◌, ◌*◌, ◌/◌, ◌≤◌, ◌<◌, ◌≡◌, ◌≢◌, true, false, some, arith, inl, inr,
  Bool-cases, Option-cases, List, [], ◌∷◌, refl, ◌∙◌, leb,
}
use unified_ai_orchestrator.Resilience.RateLimiter.{
  TokenBucket, scale, refill, try_acquire, wait_time, Around, others, acquire, Acquired,
}
use unified_ai_orchestrator.Resilience.RateLimiter.Bounds.{IsValid}

-- The quotient rounded up reaches its dividend.
ceil_enough : (n r : ℕ) → 0 < r → n ≤ (n + r - 1) / r * r
ceil_enough n r h = omega (arith, div-add-mod' (n + r - 1) r, mod-lt (n + r - 1) h)

-- What a refill at `now` leaves alone, and that it brings the bucket up to `now`.
record Fresh (b : TokenBucket) (now : ℕ) : Type 0 where
  at : b.last_refill ≡ now
  flows : 0 < b.refill_rate
  holds : 0 < b.capacity

refill-Fresh :
    (b : TokenBucket) (now : ℕ)
    → b.last_refill ≤ now
    → 0 < b.refill_rate
    → 0 < b.capacity
    → Fresh (refill b now) now
unfolding refill
refill-Fresh b now h r c = record {
  at = grind (arith, mul-pos);
  flows = ground arith;
  holds = ground arith;
}

-- A time that covers what is missing, at the rate, refills a whole token.
refill_enough :
    (b : TokenBucket) (w later : ℕ)
    → 0 < b.refill_rate
    → 0 < b.capacity
    → scale ≤ b.tokens + w * b.refill_rate
    → b.last_refill + w ≤ later
    → scale ≤ (refill b later).tokens
unfolding refill
refill_enough b w later r c e le =
    let m : w * b.refill_rate ≤ (later - b.last_refill) * b.refill_rate =
      mul-le-mul_right b.refill_rate (omega arith) in
    ground (arith, m)

try_later :
    (b : TokenBucket) (now : ℕ) → scale ≤ (refill b now).tokens → (try_acquire b 1 now).0 ≡ true
unfolding try_acquire
try_later b now h = ground arith

try_fails :
    (b : TokenBucket) (now : ℕ)
    → (try_acquire b 1 now).0 ≡ false
    → (try_acquire b 1 now ≡ (false, refill b now)) × ((refill b now).tokens < scale)
unfolding try_acquire
try_fails b now h = (ground arith, ground arith)

-- The sleep that `wait_time` asks for on a bucket that is up to date.
abbrev sleep : TokenBucket → ℕ
sleep b = (scale - b.tokens + b.refill_rate - 1) / b.refill_rate

-- The wait is long enough for a whole token.
wait_enough :
    (b : TokenBucket) (now : ℕ)
    → b.last_refill ≤ now
    → 0 < b.refill_rate
    → 0 < b.capacity
    → (w : ℕ) × (wait_time b now ≡ (some w, refill b now))
      × (scale ≤ (refill b now).tokens + w * (refill b now).refill_rate)
unfolding wait_time
wait_enough b now h r c =
    let f = refill-Fresh b now h r c in
    let b' = refill b now in
    elim (Bool-cases (leb scale b'.tokens)) [
      | inl enough ↦ (0, ground arith, ground arith)
      | inr few ↦ (
        sleep b',
        ground (arith, f.flows),
        ground (arith, ceil_enough (scale - b'.tokens) b'.refill_rate f.flows),
      )
    ]

after_sleep :
    (b : TokenBucket) (now w late : ℕ)
    → Fresh b now
    → scale ≤ b.tokens + w * b.refill_rate
    → (try_acquire b 1 (now + w + late)).0 ≡ true
after_sleep b now w late f enough =
    try_later b (now + w + late)
      (refill_enough b w (now + w + late) f.flows f.holds enough (omega (arith, f.at)))

no_others : (b : TokenBucket) (calls : List (ℕ × ℕ)) → calls ≡ [] → others b calls ≡ b
unfolding others
no_others b calls none_called = rw none_called refl

-- A caller that wants one token gets it after one sleep at most: with a positive rate and capacity,
-- a clock that has not gone back behind the last refill, and no call of others on the bucket while it
-- waits, two rounds of `acquire` are enough, however late the sleep ends and however long the caller
-- is held up between its test and `wait_time`.
pub acquire-one :
    (rounds : ℕ) (b : TokenBucket) (now : ℕ) (around : Around)
    → b.last_refill ≤ now
    → 0 < b.refill_rate
    → 0 < b.capacity
    → around.between (suc rounds) ≡ []
    → around.asleep (suc rounds) ≡ []
    → (b' : TokenBucket) × (t : ℕ) × (acquire (suc (suc rounds)) b 1 now around
        ≡ Acquired.acquired b' t)
unfolding acquire
acquire-one rounds b now around h r c alone undisturbed =
    elim (Bool-cases (try_acquire b 1 now).0) [
      | inl first ↦ ((try_acquire b 1 now).1, now, ground arith)
      | inr again ↦
          let b₁ = refill b now in
          let f = refill-Fresh b now h r c in
          let (e, few) = try_fails b now again in
          let u = now + around.pause (suc rounds) in
          let early : b₁.last_refill ≤ u = omega (arith, f.at) in
          let (w, waits, enough) = wait_enough b₁ u early f.flows f.holds in
          let b₂ = refill b₁ u in
          let t = u + w + around.late (suc rounds) in
          let f₂ = refill-Fresh b₁ u early f.flows f.holds in
          let quiet = no_others b₁ (around.between (suc rounds)) alone in
          let still = no_others b₂ (around.asleep (suc rounds)) undisturbed in
          let second = after_sleep b₂ u w (around.late (suc rounds)) f₂ enough in
          ((try_acquire b₂ 1 t).1, t, ground (arith, e, quiet, waits, still, second))
    ]

try_over :
    (b : TokenBucket) (tokens now : ℕ)
    → IsValid b
    → b.capacity < tokens
    → ((try_acquire b tokens now).0 ≡ false)
      × IsValid (try_acquire b tokens now).1
      × ((try_acquire b tokens now).1.capacity ≡ b.capacity)
unfolding try_acquire refill
try_over b tokens now v over = (ground arith, ground arith, ground arith)

wait_over :
    (b : TokenBucket) (now : ℕ)
    → IsValid b
    → IsValid (wait_time b now).1 × ((wait_time b now).1.capacity ≡ b.capacity)
unfolding wait_time refill
wait_over b now v = (ground arith, ground arith)

try_acquire-IsValid :
    (b : TokenBucket) (tokens now : ℕ)
    → IsValid b
    → IsValid (try_acquire b tokens now).1 × ((try_acquire b tokens now).1.capacity ≡ b.capacity)
unfolding try_acquire refill
try_acquire-IsValid b tokens now v = (ground arith, ground arith)

others-IsValid :
    (b : TokenBucket) (calls : List (ℕ × ℕ))
    → IsValid b
    → IsValid (others b calls) × ((others b calls).capacity ≡ b.capacity)
unfolding others
others-IsValid b [] v = (v, refl)
others-IsValid b ((tokens, now) ∷ calls) v =
    let (v', same) = try_acquire-IsValid b tokens now v in
    let (v'', same') = others-IsValid (try_acquire b tokens now).1 calls v' in (v'', same' ∙ same)

-- A caller that wants more tokens than the capacity never gets them: no number of rounds, no
-- lateness, no clock and no calls of others make `acquire` return them.
pub acquire-over :
    (rounds : ℕ) (b : TokenBucket) (tokens now : ℕ) (around : Around) (b' : TokenBucket) (t : ℕ)
    → IsValid b
    → b.capacity < tokens
    → acquire rounds b tokens now around ≢ Acquired.acquired b' t
unfolding acquire
acquire-over zero b tokens now around b' t v over = λ e. cc
acquire-over (suc rounds) b tokens now around b' t v over =
    let (failed, v₁, same₁) = try_over b tokens now v over in
    let b₁ = (try_acquire b tokens now).1 in
    let (v₂, same₂) = others-IsValid b₁ (around.between rounds) v₁ in
    let b₂ = others b₁ (around.between rounds) in
    let u = now + around.pause rounds in
    let b₃ = (wait_time b₂ u).1 in
    let (v₃, same₃) = wait_over b₂ u v₂ in
    let (v₄, same₄) = others-IsValid b₃ (around.asleep rounds) v₃ in
    elim (Option-cases (wait_time b₂ u).0) [
      | inl none_left ↦ λ e. ground (arith, failed, none_left, e)
      | inr (w, asked) ↦ λ e.
          acquire-over rounds (others b₃ (around.asleep rounds)) tokens (u + w + around.late rounds)
            around b' t v₄ (omega arith) (ground (arith, failed, asked, e))
    ]
