-- ===== src/Resilience/RateLimiter.antt =====
-- python-glue/unified_ai/resilience/rate_limiter.py. The floats are exact here: a tick of the clock
-- is a millisecond, and `tokens` counts units of which one token has 60000, so that a rate of one
-- unit in a tick is 1/60 token in a second. The lock makes each method one step; a method that
-- reads `time.time()` takes the reading as its argument. Capacities and rates are not negative.
pub mod Bounds
pub mod Waiting
mod Tests
use unified_ai_orchestrator.Base.{
  List, [], ◌∷◌, ℕ, zero, suc, ◌+◌, ◌-◌, ◌*◌, ◌/◌, Bool, true, false, Option, none, some, ltb, leb,
  ◌==◌, min, if◌then◌else◌,
}

-- The units of one token.
abbrev pub scale : ℕ
scale = 60000

pub record TokenBucket : Type 0 where
  pub capacity : ℕ
  pub refill_rate : ℕ
  pub tokens : ℕ
  pub last_refill : ℕ

-- `__post_init__`
unfoldable pub new_bucket : ℕ → ℕ → ℕ → TokenBucket
new_bucket capacity refill_rate now = record {
  capacity = capacity;
  refill_rate = refill_rate;
  tokens = capacity * scale;
  last_refill = now;
}

-- `_refill`. A clock that went back gives an `elapsed` of 0 where the source has a negative one:
-- either way there is nothing to add.
unfoldable pub refill : TokenBucket → ℕ → TokenBucket
refill b now =
    let tokens_to_add = (now - b.last_refill) * b.refill_rate in
    if ltb 0 tokens_to_add
    then record b {
      tokens = min (b.tokens + tokens_to_add) (b.capacity * scale);
      last_refill = now;
    }
    else b

-- `TokenBucket.try_acquire`
unfoldable pub try_acquire : TokenBucket → ℕ → ℕ → Bool × TokenBucket
try_acquire b tokens now =
    let b' = refill b now in
    if leb (tokens * scale) b'.tokens
    then (true, record b' { tokens = b'.tokens - tokens * scale })
    else (false, b')

-- `wait_time`, rounded up to the tick; `none` is the `ZeroDivisionError` of a rate of 0.
unfoldable pub wait_time : TokenBucket → ℕ → Option ℕ × TokenBucket
wait_time b now =
    let b' = refill b now in
    if leb scale b'.tokens
    then (some 0, b')
    else if b'.refill_rate == 0
    then (none, b')
    else (some ((scale - b'.tokens + b'.refill_rate - 1) / b'.refill_rate), b')

-- `RateLimiter.__init__`: without a rate the limiter refills `capacity` tokens in a minute.
unfoldable pub new_limiter : ℕ → Option ℕ → ℕ → TokenBucket
new_limiter capacity none now = new_bucket capacity capacity now
new_limiter capacity (some refill_rate) now = new_bucket capacity refill_rate now

-- `RateLimiter.allow`
unfoldable pub allow : TokenBucket → ℕ → Bool × TokenBucket
allow b now = try_acquire b 1 now

-- `RateLimiter.remaining`
unfoldable pub remaining : TokenBucket → ℕ → ℕ × TokenBucket
remaining b now = let b' = refill b now in (b'.tokens / scale, b')

-- How `RateLimiter.acquire` ends: with the tokens at some time, by the exception of `wait_time`, or
-- not within the rounds that it was given.
pub data Acquired : Type 0 where
  acquired : TokenBucket → ℕ → Acquired
  zero_division : Acquired
  waiting : Acquired

-- What happens around the rounds of a caller, each by the rounds left: the ticks between the test and
-- `wait_time`, how late a sleep ends, and the calls of others, their tokens and times, between the two
-- and during the sleep. A call that only refills, as `remaining` does, is one for no tokens.
pub record Around : Type 0 where
  pub pause : ℕ → ℕ
  pub late : ℕ → ℕ
  pub between : ℕ → List (ℕ × ℕ)
  pub asleep : ℕ → List (ℕ × ℕ)

-- The bucket after these calls of `try_acquire`.
unfoldable pub others : TokenBucket → List (ℕ × ℕ) → TokenBucket
others b [] = b
others b ((tokens, now) ∷ calls) = others (try_acquire b tokens now).1 calls

-- `RateLimiter.acquire`: `now` is the time of a round's test. `await asyncio.sleep` is skipped for a
-- wait of 0, in which case `asleep` is what other threads do before the next test.
unfoldable pub acquire : ℕ → TokenBucket → ℕ → ℕ → Around → Acquired
unfolding others
acquire zero b tokens now around = waiting
acquire (suc rounds) b tokens now around =
    let (granted, b₁) = try_acquire b tokens now in
    elim granted [
      | true ↦ acquired b₁ now
      | false ↦
          let asked = now + around.pause rounds in
          let (wait, b₂) = wait_time (others b₁ (around.between rounds)) asked in
          elim wait [
            | none ↦ zero_division
            | some w ↦
                acquire rounds (others b₂ (around.asleep rounds)) tokens
                  (asked + w + around.late rounds) around
          ]
    ]
