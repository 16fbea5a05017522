-- ===== src/Api/Stack.antt =====
-- The order in which `create_app` of python-glue/unified_ai/api/server.py puts the middleware, of which
-- the one added last runs first, `InputValidationMiddleware` of
-- python-glue/unified_ai/api/middleware.py and `limit_request_size`. From the outside: CSRF, security
-- headers, input validation, rate limit, API key, request log, CORS, size, routes. The two that only
-- log or add headers are left out. The handler, the fresh CSRF token, the upper case of a text and
-- `int` are parameters, and so is what Starlette's CORSMiddleware, as `setup_cors` sets it up, answers
-- to a preflight request; it passes every other request on.
pub mod Order
mod Tests
use unified_ai_orchestrator.Base.{
  ℕ, ◌+◌, ◌*◌, Bool, true, false, Option, none, some, List, [], ◌∷◌, any, ltb, if◌then◌else◌,
}
use unified_ai_orchestrator.Base.Text.{Text, codes, starts_with}
use unified_ai_orchestrator.Security.Validation.{Checked, valid, validate_input}
use unified_ai_orchestrator.Api.Request.{ApiRequest}
use unified_ai_orchestrator.Api.ApiKey
use unified_ai_orchestrator.Api.Csrf
use unified_ai_orchestrator.Api.RateLimit.{RateLimits, Verdict, unlimited, admitted, limited, begin}

-- The response of the handler, or that of the middleware that stopped the request; `bad_length` is the
-- exception of `int`.
pub data Outcome (R : Type 0) : Type 0 where
  handled : R → Outcome R
  too_large : Outcome R
  bad_length : Outcome R
  preflight : R → Outcome R
  invalid_key : Outcome R
  rate_limited : Outcome R
  invalid_parameter : Text → Outcome R
  token_missing : Outcome R
  invalid_token : Outcome R

abbrev pub max_size : ℕ
max_size = 10 * 1024 * 1024

-- `int` of a header, `none` where it raises; a negative number counts as 0.
abbrev pub ToInt : Type 0
ToInt = Text → Option ℕ

measured : Option ℕ → Option Bool
measured none = none
measured (some size) = some (ltb max_size size)

-- `if content_length`, and whether the size is over the limit; `none` is the exception.
over_size : ToInt → Option Text → Option Bool
over_size int none = some false
over_size int (some []) = some false
over_size int (some (c ∷ header)) = measured (int (c ∷ header))

by_size : {R : Type 0} → Option Bool → R → Outcome R
by_size none response = bad_length
by_size (some over) response = if over then too_large else handled response

-- `limit_request_size`
unfoldable pub limit_request_size : {R : Type 0} → ToInt → (ApiRequest → R) → ApiRequest → Outcome R
unfolding measured over_size by_size
limit_request_size int call_next r = by_size (over_size int r.content_length) (call_next r)

answered : {R : Type 0} → Option R → Outcome R → Outcome R
answered none o = o
answered (some response) o = preflight response

keyed : {R : Type 0} → ApiKey.KeyResponse (Outcome R) → Outcome R
keyed (ApiKey.passed o) = o
keyed ApiKey.invalid_key = invalid_key

limited_by : {R : Type 0} → Verdict → Outcome R → Outcome R
limited_by unlimited o = o
limited_by admitted o = o
limited_by limited o = rate_limited

abbrev pub skip_paths : List Text
skip_paths =
    codes "/health"
    ∷ codes "/metrics"
    ∷ codes "/static"
    ∷ codes "/docs"
    ∷ codes "/openapi.json"
    ∷ []

is_accepted : Checked → Bool
is_accepted (valid t) = true
is_accepted c = false

-- The first query parameter that `validate_input(str(value), max_length=1000)` refuses.
unfoldable pub refused_parameter : List (Text × Text) → Option Text
unfolding is_accepted
refused_parameter [] = none
refused_parameter ((key, t) ∷ ps) =
    if is_accepted (validate_input t (some 1000) 0 false none)
    then refused_parameter ps
    else some key

-- `InputValidationMiddleware.dispatch`: the parameter of its status 400, or nothing.
unfoldable pub refused : ApiRequest → Option Text
refused r = if any (starts_with r.path) skip_paths then none else refused_parameter r.query_params

csrf_request : ApiRequest → Csrf.CsrfRequest
csrf_request r = record {
  method = r.method;
  csrf_header = r.csrf_header;
  csrf_cookie = r.csrf_cookie;
}

from_csrf :
    {R : Type 0} → RateLimits → Csrf.CsrfResponse (Outcome R × RateLimits) → Outcome R × RateLimits
from_csrf s (Csrf.passed o token) = o
from_csrf s Csrf.token_missing = (token_missing, s)
from_csrf s Csrf.invalid_token = (invalid_token, s)

module _ {R : Type 0} (int : ToInt) (cors : ApiRequest → Option R) (api_key : Option Text)
    (call_next : ApiRequest → R) where
  -- From CORS inwards.
  unfoldable pub cross_origin : ApiRequest → Outcome R
  unfolding answered
  cross_origin r = answered (cors r) (limit_request_size int call_next r)

  -- From the API key inwards.
  unfoldable pub authenticated : ApiRequest → Outcome R
  unfolding keyed
  authenticated r = keyed (ApiKey.dispatch api_key cross_origin r)

  -- From the rate limit inwards.
  unfoldable pub rate_limit : RateLimits → ApiRequest → ℕ → ℕ → Outcome R × RateLimits
  unfolding limited_by
  rate_limit s r made now = let (v, s') = begin s r made now in (limited_by v (authenticated r), s')

  validated : RateLimits → ApiRequest → ℕ → ℕ → Option Text → Outcome R × RateLimits
  validated s r made now none = rate_limit s r made now
  validated s r made now (some key) = (invalid_parameter key, s)

  -- A request on its way to the handler; `enable_csrf` is the environment's `ENABLE_CSRF`.
  unfoldable pub handle :
      Bool → (Text → Text) → Text → RateLimits → ApiRequest → ℕ → ℕ → Outcome R × RateLimits
  unfolding validated from_csrf csrf_request
  handle enable_csrf upper fresh s r made now =
      let inner = validated s r made now (refused r) in
      if enable_csrf
      then from_csrf s (Csrf.dispatch upper (λ q. inner) fresh (csrf_request r))
      else inner
