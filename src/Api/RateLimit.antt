-- ===== src/Api/RateLimit.antt =====
-- `RateLimitMiddleware` of python-glue/unified_ai/api/middleware.py. The handler runs between `begin`
-- and `finish`, so other requests come in between. The limiters are a function of the client's
-- identifier; each reading of the clock is an argument.
pub mod Clients
pub mod Keys
mod Tests
use unified_ai_orchestrator.Base.{
  ℕ, Bool, true, false, Option, none, some, List, [], ◌∷◌, ◌++◌, take, if◌then◌else◌,
}
use unified_ai_orchestrator.Base.Text.{Text, codes, text_eq, has_text}
use unified_ai_orchestrator.Api.Request.{ApiRequest, extract_api_key, is_public}
use unified_ai_orchestrator.Resilience.RateLimiter.{TokenBucket, new_limiter, allow, remaining}

pub record RateLimits : Type 0 where
  pub requests_per_minute : ℕ
  pub limiters : Text → Option TokenBucket

-- `__init__`
unfoldable pub new_limits : ℕ → RateLimits
new_limits requests_per_minute = record {
  requests_per_minute = requests_per_minute;
  limiters = λ k. none;
}

abbrev pub public_paths : List Text
public_paths = codes "/health" ∷ codes "/metrics" ∷ codes "/static" ∷ []

or_empty : Option Text → Text
or_empty none = []
or_empty (some t) = t

host_or_unknown : Option Text → Text
host_or_unknown none = codes "unknown"
host_or_unknown (some host) = host

-- The client identifier: the first 8 characters of the API key, or the address.
unfoldable pub client_id : ApiRequest → Text
unfolding or_empty host_or_unknown
client_id r =
    if has_text (extract_api_key r)
    then codes "api_key:" ++ take 8 (or_empty (extract_api_key r))
    else host_or_unknown r.host

-- `self.limiters[client_id]`: the defaultdict makes a limiter at the first use.
found : Option TokenBucket → ℕ → ℕ → TokenBucket
found none requests_per_minute now = new_limiter requests_per_minute none now
found (some b) requests_per_minute now = b

unfoldable pub limiter_of : RateLimits → Text → ℕ → TokenBucket
unfolding found
limiter_of s k now = found (s.limiters k) s.requests_per_minute now

set_limiter : RateLimits → Text → TokenBucket → RateLimits
set_limiter s k b = record s { limiters = λ j. if text_eq j k then some b else s.limiters j }

-- What `dispatch` does with a request: calls the handler with no limit, calls it for a client, or
-- answers with the status 429.
pub data Verdict : Type 0 where
  unlimited admitted limited : Verdict

-- `dispatch` up to the call of the handler; the limiter may be made at the time `made`, and is asked
-- at the time `now`.
unfoldable pub begin : RateLimits → ApiRequest → ℕ → ℕ → Verdict × RateLimits
unfolding set_limiter
begin s r made now =
    if is_public public_paths r.path
    then (unlimited, s)
    else (let (ok, b) = allow (limiter_of s (client_id r) made) now in
        (if ok then admitted else limited, set_limiter s (client_id r) b))

finished : RateLimits → Text → Option TokenBucket → ℕ → Option ℕ × RateLimits
unfolding set_limiter
finished s k none now = (none, s)
finished s k (some b) now = let (left, b') = remaining b now in (some left, set_limiter s k b')

-- `limiter.remaining()` once the handler of an admitted request of the client has returned, for the
-- header `X-RateLimit-Remaining`; the limiter of such a client is there.
unfoldable pub finish : RateLimits → Text → ℕ → Option ℕ × RateLimits
unfolding finished
finish s k now = finished s k (s.limiters k) now
