-- ===== src/Resilience/RateLimiter/Bounds.antt =====
-- What a token bucket lets through.
use native.Mathlib.Nat.{add-mul}
use unified_ai_orchestrator.Base.{
  ℕ, zero, suc, ◌+◌, ◌-◌, ◌*◌, ◌≤◌, ◌<◌, ◌≡◌, sym, ap, ◌∙◌, List, [], ◌∷◌, none, arith,
  if◌then◌else◌, All,
}
use unified_ai_orchestrator.Resilience.RateLimiter.{
  TokenBucket, scale, new_bucket, refill, try_acquire, new_limiter,
}

-- A bucket never holds more than its capacity.
abbrev pub IsValid : TokenBucket → Type 0
IsValid b = b.tokens ≤ b.capacity * scale

-- The requests of a run, each for some tokens at a reading of the clock: the tokens granted, and
-- the bucket at the end.
unfoldable pub granted_in : TokenBucket → List (ℕ × ℕ) → ℕ × TokenBucket
granted_in b [] = (0, b)
granted_in b ((tokens, now) ∷ rs) =
    let (ok, b') = try_acquire b tokens now in
    let (n, b'') = granted_in b' rs in ((if ok then tokens + n else n), b'')

-- What one step keeps: the capacity and the rate, and a balance between what is held, what is
-- spent and the time that has passed.
record Balance (b b' : TokenBucket) (spent : ℕ) : Type 0 where
  capacity : b'.capacity ≡ b.capacity
  rate : b'.refill_rate ≡ b.refill_rate
  later : b.last_refill ≤ b'.last_refill
  balance : spent * scale + b'.tokens ≤ b.tokens + (b'.last_refill - b.last_refill) * b.refill_rate
  valid : IsValid b'

pos_of_mul_pos : (a b : ℕ) → 0 < a * b → 0 < a
pos_of_mul_pos zero b h = absurd (grind arith)
pos_of_mul_pos (suc a) b h = omega arith

-- Time that passes in two parts refills as in one.
split_time : (l m n r : ℕ) → l ≤ m → m ≤ n → (m - l) * r + (n - m) * r ≡ (n - l) * r
split_time l m n r h k = sym (add-mul (m - l) (n - m) r) ∙ ap (λ (t : ℕ). t * r) (omega arith)

refill-Balance : (b : TokenBucket) (now : ℕ) → IsValid b → Balance b (refill b now) 0
unfolding refill
refill-Balance b now v =
    let added = (now - b.last_refill) * b.refill_rate in
    let p = pos_of_mul_pos (now - b.last_refill) b.refill_rate in
    record {
      capacity = ground arith;
      rate = ground arith;
      later = ground (arith, p);
      balance = ground arith;
      valid = ground arith;
    }

try_acquire-Balance :
    (b : TokenBucket) (tokens now : ℕ)
    → IsValid b
    → let (ok, b') = try_acquire b tokens now in Balance b b' (if ok then tokens else 0)
unfolding try_acquire
try_acquire-Balance b tokens now v =
    let r = refill-Balance b now v in
    record {
      capacity = ground arith;
      rate = ground arith;
      later = ground arith;
      balance = ground arith;
      valid = ground arith;
    }

granted_in-Balance :
    (b : TokenBucket) (rs : List (ℕ × ℕ))
    → IsValid b
    → let (n, b') = granted_in b rs in Balance b b' n
unfolding granted_in
granted_in-Balance b [] v = omega arith
granted_in-Balance b ((tokens, now) ∷ rs) v =
    let (ok, b') = try_acquire b tokens now in
    let s = try_acquire-Balance b tokens now v in
    let r = granted_in-Balance b' rs s.valid in
    let l = (granted_in b' rs).1.last_refill in
    let e = split_time b.last_refill b'.last_refill l b.refill_rate s.later r.later in
    let same_rate = ap (λ (t : ℕ). (l - b'.last_refill) * t) s.rate in
    record {
      capacity = r.capacity ∙ s.capacity;
      rate = r.rate ∙ s.rate;
      later = omega arith;
      balance = ground (arith, same_rate);
      valid = r.valid;
    }

-- No reading of the clock in a run is after `t`.
abbrev pub Until : ℕ → List (ℕ × ℕ) → Type 0
Until t rs = All (λ (r : ℕ × ℕ). r.1 ≤ t) rs

try_acquire-until :
    (t : ℕ) (b : TokenBucket) (tokens now : ℕ)
    → b.last_refill ≤ t
    → now ≤ t
    → (try_acquire b tokens now).1.last_refill ≤ t
unfolding try_acquire refill
try_acquire-until t b tokens now h k = ground arith

granted_in-upto :
    (t : ℕ) (b : TokenBucket) (rs : List (ℕ × ℕ))
    → b.last_refill ≤ t
    → Until t rs
    → (granted_in b rs).1.last_refill ≤ t
unfolding granted_in
granted_in-upto t b [] h u = h
granted_in-upto t b ((tokens, now) ∷ rs) h u =
    granted_in-upto t (try_acquire b tokens now).1 rs (try_acquire-until t b tokens now h u.0) u.1

-- A valid bucket grants at most its burst and what the time refills: over any run of requests, in
-- any order of the clock's readings, none after `t`, the tokens granted and those left are at most
-- those held at the start and the rate times the ticks from the last refill to `t`; and the bucket
-- ends valid, with the same capacity and rate.
pub granted_in-le :
    (b : TokenBucket) (rs : List (ℕ × ℕ)) (t : ℕ)
    → IsValid b
    → b.last_refill ≤ t
    → Until t rs
    → let (n, b') = granted_in b rs in
      (n * scale + b'.tokens ≤ b.tokens + (t - b.last_refill) * b.refill_rate)
      × IsValid b'
      × (b'.capacity ≡ b.capacity)
      × (b'.refill_rate ≡ b.refill_rate)
granted_in-le b rs t v h u =
    let r = granted_in-Balance b rs v in
    let l = (granted_in b rs).1.last_refill in
    let e = split_time b.last_refill l t b.refill_rate r.later (granted_in-upto t b rs h u) in
    (omega (arith, r.balance, e), r.valid, r.capacity, r.rate)

-- A limiter made with no rate, for `capacity` requests in a minute, never grants more than
-- twice its capacity in tokens within its first minute, however the requests come.
pub new_limiter-minute :
    (capacity now : ℕ) (rs : List (ℕ × ℕ))
    → Until (now + 60000) rs
    → (granted_in (new_limiter capacity none now) rs).0 ≤ 2 * capacity
unfolding new_limiter new_bucket
new_limiter-minute capacity now rs u =
    let b = new_limiter capacity none now in
    let e : (now + 60000 - now) * capacity ≡ 60000 * capacity =
      ap (λ (t : ℕ). t * capacity) (omega arith) in
    let h : (granted_in b rs).0 * scale + (granted_in b rs).1.tokens
        ≤ capacity * scale + (now + 60000 - now) * capacity =
      (granted_in-le b rs (now + 60000) (omega arith) (omega arith) u).0 in
    omega (arith, h, e)
