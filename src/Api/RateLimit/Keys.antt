-- ===== src/Api/RateLimit/Keys.antt =====
-- Requests under keys that change: the key is not validated before it names the limiter.
use unified_ai_orchestrator.Base.{
  ℕ, ◌≤◌, ◌≡◌, refl, ap₂, Bool, true, false, none, List, [], ◌∷◌, map, All, arith,
}
use unified_ai_orchestrator.Base.Text.{text_eq, text_eq_sym}
use unified_ai_orchestrator.Base.Rows.{NoClash}
use unified_ai_orchestrator.Api.Request.{ApiRequest, is_public}
use unified_ai_orchestrator.Resilience.RateLimiter.{
  new_bucket, new_limiter, allow, try_acquire, refill,
}
use unified_ai_orchestrator.Api.RateLimit.{
  RateLimits, public_paths, client_id, limiter_of, found, set_limiter, Verdict, admitted, begin,
}

-- A request with the two readings of the clock.
abbrev pub Timed : Type 0
Timed = ApiRequest × ℕ × ℕ

abbrev pub same_client : Timed → Timed → Bool
same_client (r, made, now) (q, made', now') = text_eq (client_id r) (client_id q)

-- A path that is limited, of a client without a limiter.
abbrev pub IsFresh : RateLimits → Timed → Type 0
IsFresh s (r, made, now) =
    (is_public public_paths r.path ≡ false) × (s.limiters (client_id r) ≡ none)

abbrev pub verdicts : RateLimits → List Timed → List Verdict
verdicts s [] = []
verdicts s ((r, made, now) ∷ rs) = let (v, s') = begin s r made now in v ∷ verdicts s' rs

first_allowed : (n made now : ℕ) → 1 ≤ n → (allow (new_limiter n none made) now).0 ≡ true
unfolding allow try_acquire refill new_limiter new_bucket
first_allowed n made now h = ground arith

begin-fresh :
    (s : RateLimits) (r : ApiRequest) (made now : ℕ)
    → 1 ≤ s.requests_per_minute
    → IsFresh s (r, made, now)
    → (begin s r made now).0 ≡ admitted
unfolding begin limiter_of found
begin-fresh s r made now h (limits, fresh) =
    rw (limits, fresh, first_allowed s.requests_per_minute made now h) refl

begin-rate :
    (s : RateLimits) (r : ApiRequest) (made now : ℕ)
    → (begin s r made now).1.requests_per_minute ≡ s.requests_per_minute
unfolding begin set_limiter
begin-rate s r made now = ground arith

begin-IsFresh :
    (s : RateLimits) (r : ApiRequest) (made now : ℕ) (t : Timed)
    → same_client (r, made, now) t ≡ false
    → IsFresh s t
    → IsFresh (begin s r made now).1 t
unfolding begin set_limiter
begin-IsFresh s r made now (q, made', now') other (limits, fresh) =
    (limits, ground (arith, fresh, other, text_eq_sym (client_id r) (client_id q)))

later_fresh :
    (s : RateLimits) (r : ApiRequest) (made now : ℕ) (rs : List Timed)
    → All (λ t. same_client (r, made, now) t ≡ false) rs
    → All (IsFresh s) rs
    → All (IsFresh (begin s r made now).1) rs
later_fresh s r made now [] apart fresh = tt
later_fresh s r made now (t ∷ rs) (other, apart) (here, fresh) =
    (begin-IsFresh s r made now t other here, later_fresh s r made now rs apart fresh)

-- Requests whose client identifiers all differ, of clients that have no limiter yet, are all
-- admitted, however many they are and whatever the times, if the limit is not 0. The identifier is made
-- from the key that the request gives, valid or not, so a sender chooses it.
pub verdicts-fresh :
    (s : RateLimits) (rs : List Timed)
    → 1 ≤ s.requests_per_minute
    → NoClash same_client rs
    → All (IsFresh s) rs
    → verdicts s rs ≡ map (λ t. admitted) rs
verdicts-fresh s [] h differ fresh = refl
verdicts-fresh s ((r, made, now) ∷ rs) h (apart, differ) (here, fresh) =
    ap₂ (λ x xs. x ∷ xs) (begin-fresh s r made now h here)
      (verdicts-fresh (begin s r made now).1 rs (rw (begin-rate s r made now) h) differ
        (later_fresh s r made now rs apart fresh))
