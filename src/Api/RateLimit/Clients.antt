-- ===== src/Api/RateLimit/Clients.antt =====
-- What one client's requests do to another's, and how many a client gets through.
use unified_ai_orchestrator.Base.{
  ℕ, ◌+◌, ◌*◌, ◌≤◌, ◌≡◌, refl, ap, ap₂, ◌∙◌, Bool, true, false, Option, none, some, List, [], ◌∷◌,
  select, if◌then◌else◌, arith, Bool-cases, inl, inr,
}
use unified_ai_orchestrator.Base.Text.{Text, text_eq, text_eq→eq, text_eq_refl, text_eq_sym}
use unified_ai_orchestrator.Api.Request.{ApiRequest, is_public}
use unified_ai_orchestrator.Resilience.RateLimiter.{
  TokenBucket, new_limiter, allow, remaining, try_acquire,
}
use unified_ai_orchestrator.Resilience.RateLimiter.Bounds.{granted_in, new_limiter-minute, Until}
use unified_ai_orchestrator.Api.RateLimit.{
  RateLimits, public_paths, client_id, limiter_of, found, set_limiter, finished, Verdict, unlimited,
  admitted, limited, begin, finish,
}

-- What happens at the middleware, in the order in which the event loop runs it: a request comes
-- (with the two readings of the clock), or the handler of a client's request returns.
pub data Event : Type 0 where
  came : ApiRequest → ℕ → ℕ → Event
  returned : Text → ℕ → Event

-- What the client is told: the verdict on a request, or what remains.
pub data Answer : Type 0 where
  verdict : Verdict → Answer
  remains : Option ℕ → Answer

-- The client of an event; a public path has none.
abbrev pub is_of : Text → Event → Bool
is_of k (came r made now) = if is_public public_paths r.path then false else text_eq (client_id r) k
is_of k (returned j now) = text_eq j k

abbrev pub step : RateLimits → Event → Answer × RateLimits
step s (came r made now) = let (v, s') = begin s r made now in (verdict v, s')
step s (returned k now) = let (left, s') = finish s k now in (remains left, s')

-- What a client is told in a run.
abbrev pub answers : Text → RateLimits → List Event → List Answer
answers k s [] = []
answers k s (e ∷ es) =
    let (a, s') = step s e in let rest = answers k s' es in if is_of k e then a ∷ rest else rest

-- Two states that agree on a client.
record Agree (k : Text) (s t : RateLimits) : Type 0 where
  rate : s.requests_per_minute ≡ t.requests_per_minute
  limiter : s.limiters k ≡ t.limiters k

-- Where another client's limiter is set.
set-other :
    (k j : Text) (s t : RateLimits) (b : TokenBucket)
    → text_eq j k ≡ false
    → Agree k s t
    → Agree k (set_limiter s j b) t
unfolding set_limiter
set-other k j s t b other a = record {
  rate = a.rate;
  limiter = ground (arith, a.limiter, text_eq_sym k j);
}

set-same :
    (k j : Text) (s t : RateLimits) (b : TokenBucket)
    → Agree k s t
    → Agree k (set_limiter s j b) (set_limiter t j b)
unfolding set_limiter
set-same k j s t b a = record { rate = a.rate; limiter = ground (arith, a.limiter) }

finished-other :
    (k j : Text) (s t : RateLimits) (o : Option TokenBucket) (now : ℕ)
    → text_eq j k ≡ false
    → Agree k s t
    → Agree k (finished s j o now).1 t
unfolding finished
finished-other k j s t none now other a = a
finished-other k j s t (some b) now other a = set-other k j s t (remaining b now).1 other a

other_event :
    (k : Text) (s t : RateLimits) (e : Event)
    → is_of k e ≡ false
    → Agree k s t
    → Agree k (step s e).1 t
unfolding begin finish
other_event k s t (came r made now) other a = elim (Bool-cases (is_public public_paths r.path)) [
  | inl open_path ↦ rw open_path a
  | inr closed ↦ rw closed (
      set-other k (client_id r) s t (allow (limiter_of s (client_id r) made) now).1
        (ground (arith, closed, other)) a)
]
other_event k s t (returned j now) other a = finished-other k j s t (s.limiters j) now other a

finished-same :
    (k j : Text) (s t : RateLimits) (o : Option TokenBucket) (now : ℕ)
    → Agree k s t
    → ((finished s j o now).0 ≡ (finished t j o now).0)
      × Agree k (finished s j o now).1 (finished t j o now).1
unfolding finished
finished-same k j s t none now a = (refl, a)
finished-same k j s t (some b) now a = (refl, set-same k j s t (remaining b now).1 a)

charge-same :
    (k j : Text) (s t : RateLimits) (b c : TokenBucket) (now : ℕ)
    → b ≡ c
    → Agree k s t
    → (verdict (if (allow b now).0 then admitted else limited)
        ≡ verdict (if (allow c now).0 then admitted else limited))
      × Agree k (set_limiter s j (allow b now).1) (set_limiter t j (allow c now).1)
charge-same k j s t b c now e a = rw e (refl, set-same k j s t (allow c now).1 a)

own_event :
    (k : Text) (s t : RateLimits) (e : Event)
    → is_of k e ≡ true
    → Agree k s t
    → ((step s e).0 ≡ (step t e).0) × Agree k (step s e).1 (step t e).1
unfolding begin finish limiter_of
own_event k s t (came r made now) own a = elim (Bool-cases (is_public public_paths r.path)) [
  | inl open_path ↦ absurd (ground (arith, open_path, own))
  | inr closed ↦
      let this : client_id r ≡ k = text_eq→eq (client_id r) k (ground (arith, closed, own)) in
      let same : limiter_of s (client_id r) made ≡ limiter_of t (client_id r) made =
        rw (this, a.limiter, a.rate) refl in
      rw closed (
        charge-same k (client_id r) s t (limiter_of s (client_id r) made)
          (limiter_of t (client_id r) made) now same a)
]
own_event k s t (returned j now) own a =
    let same : s.limiters j ≡ t.limiters j = rw (text_eq→eq j k own) a.limiter in
    let (told, a') = finished-same k j s t (t.limiters j) now a in rw same (ap remains told, a')

answers-Agree :
    (k : Text) (s t : RateLimits) (es : List Event)
    → Agree k s t
    → answers k s es ≡ answers k t (select (is_of k) es)
answers-Agree k s t [] a = refl
answers-Agree k s t (e ∷ es) a = elim (Bool-cases (is_of k e)) [
  | inl own ↦
      let (same, a') = own_event k s t e own a in
      rw (own, own) (ap₂ (λ x xs. x ∷ xs) same (answers-Agree k (step s e).1 (step t e).1 es a'))
  | inr other ↦ rw other (answers-Agree k (step s e).1 t es (other_event k s t e other a))
]

-- Clients do not disturb each other: however the requests and the returning handlers of all clients
-- come in between, a client gets the answers that it gets if only its own requests and returning
-- handlers are run.
pub answers-alone :
    (k : Text) (s : RateLimits) (es : List Event)
    → answers k s es ≡ answers k s (select (is_of k) es)
answers-alone k s es = answers-Agree k s s es (record { rate = refl; limiter = refl })

-- The tokens that an event asks of the limiter, and the reading of the clock; a returned handler asks
-- for none.
abbrev pub cost : Event → ℕ × ℕ
cost (came r made now) = (1, now)
cost (returned j now) = (0, now)

abbrev pub asked : Text → List Event → List (ℕ × ℕ)
asked k [] = []
asked k (e ∷ es) = if is_of k e then cost e ∷ asked k es else asked k es

abbrev pub one : Answer → ℕ
one (verdict unlimited) = 0
one (verdict admitted) = 1
one (verdict limited) = 0
one (remains left) = 0

-- How many requests of a client are admitted.
abbrev pub admissions : List Answer → ℕ
admissions [] = 0
admissions (a ∷ told) = one a + admissions told

remaining-acquire : (b : TokenBucket) (now : ℕ) → (remaining b now).1 ≡ (try_acquire b 0 now).1
unfolding remaining try_acquire
remaining-acquire b now = ground arith

-- What an event of the client does to its limiter.
abbrev Charged : Text → RateLimits → TokenBucket → ℕ × ℕ → Answer × RateLimits → Type 0
Charged k s b (tokens, now) (a, s') =
    (one a ≡ (if (try_acquire b tokens now).0 then tokens else 0))
    × (s'.limiters k ≡ some (try_acquire b tokens now).1)

came_charge :
    (k : Text) (s : RateLimits) (b : TokenBucket) (r : ApiRequest) (made now : ℕ)
    → is_of k (came r made now) ≡ true
    → limiter_of s k made ≡ b
    → Charged k s b (1, now) (step s (came r made now))
unfolding begin set_limiter allow
came_charge k s b r made now own there = elim (Bool-cases (is_public public_paths r.path)) [
  | inl open_path ↦ absurd (ground (arith, open_path, own))
  | inr closed ↦
      let this : client_id r ≡ k = text_eq→eq (client_id r) k (ground (arith, closed, own)) in
      rw (closed, this, there) (ground arith, rw (text_eq_refl k) refl)
]

own_charge :
    (k : Text) (s : RateLimits) (b : TokenBucket) (e : Event)
    → is_of k e ≡ true
    → s.limiters k ≡ some b
    → Charged k s b (cost e) (step s e)
unfolding finish finished limiter_of found set_limiter
own_charge k s b (came r made now) own there = came_charge k s b r made now own (rw there refl)
own_charge k s b (returned j now) own there =
    rw (text_eq→eq j k own, there) (ground arith, rw (text_eq_refl k, remaining-acquire b now) refl)

Charged-run :
    (k : Text) (s : RateLimits) (b : TokenBucket) (e : Event) (es : List Event)
    → is_of k e ≡ true
    → Charged k s b (cost e) (step s e)
    → admissions (answers k (step s e).1 es)
      ≡ (granted_in (try_acquire b (cost e).0 (cost e).1).1 (asked k es)).0
    → admissions (answers k s (e ∷ es)) ≡ (granted_in b (asked k (e ∷ es))).0
unfolding granted_in
Charged-run k s b e es own (told, there) rest = rw own (ground (arith, told, rest))

own_admissions :
    (k : Text) (s : RateLimits) (b : TokenBucket) (es : List Event)
    → s.limiters k ≡ some b
    → admissions (answers k s es) ≡ (granted_in b (asked k es)).0
unfolding granted_in
own_admissions k s b [] there = refl
own_admissions k s b (e ∷ es) there = elim (Bool-cases (is_of k e)) [
  | inl own ↦
      let charge = own_charge k s b e own there in
      Charged-run k s b e es own charge
        (own_admissions k (step s e).1 (try_acquire b (cost e).0 (cost e).1).1 es charge.1)
  | inr other ↦
      let a = other_event k s s e other (record { rate = refl; limiter = refl }) in
      rw other (own_admissions k (step s e).1 b es (a.limiter ∙ there))
]

-- However other clients come in between: a client that had no limiter gets, from the first request
-- that made its limiter and within the minute after, at most twice `requests_per_minute` requests
-- through.
pub admissions-minute :
    (k : Text) (s : RateLimits) (r : ApiRequest) (made now : ℕ) (es : List Event)
    → s.limiters k ≡ none
    → is_of k (came r made now) ≡ true
    → Until (made + 60000) (asked k (came r made now ∷ es))
    → admissions (answers k s (came r made now ∷ es)) ≤ 2 * s.requests_per_minute
unfolding limiter_of found
admissions-minute k s r made now es fresh own u =
    let b = new_limiter s.requests_per_minute none made in
    let charge = came_charge k s b r made now own (rw fresh refl) in
    let rest = own_admissions k (begin s r made now).1 (try_acquire b 1 now).1 es charge.1 in
    rw (Charged-run k s b (came r made now) es own charge rest)
      (new_limiter-minute s.requests_per_minute made (asked k (came r made now ∷ es)) u)
