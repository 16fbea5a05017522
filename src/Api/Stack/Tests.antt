-- ===== src/Api/Stack/Tests.antt =====
-- Concrete requests through the stack, and the theorems on them.
use unified_ai_orchestrator.Base.{◌≡◌, refl, true, Option, none, some, [], ◌∷◌, ◌&&◌, if◌then◌else◌}
use unified_ai_orchestrator.Base.Text.{Text, codes, text_eq, has_text}
use unified_ai_orchestrator.Context.Compression.{strip, lstrip, is_space}
use unified_ai_orchestrator.Security.Validation.{validate_input, is_control, no_text}
use unified_ai_orchestrator.Resilience.RateLimiter.{
  new_bucket, new_limiter, refill, try_acquire, allow,
}
use unified_ai_orchestrator.Api.Request.{ApiRequest, extract_api_key, is_public}
use unified_ai_orchestrator.Api.ApiKey
use unified_ai_orchestrator.Api.Csrf
use unified_ai_orchestrator.Api.RateLimit.{client_id, limiter_of, begin, new_limits}
use unified_ai_orchestrator.Api.Stack.{
  Outcome, handled, too_large, bad_length, preflight, ToInt, invalid_key, invalid_parameter,
  token_missing, limit_request_size, cross_origin, refused_parameter, refused, authenticated,
  rate_limit, handle,
}

abbrev get : ApiRequest
get = record {
  method = codes "GET";
  path = codes "/api/v1/chat";
  x_api_key = some (codes "secret");
  authorization = none;
  api_key_param = none;
  query_params = (codes "q", codes "hi") ∷ [];
  host = none;
  csrf_header = none;
  csrf_cookie = none;
  content_length = none;
  origin = none;
  access_control_request_method = none;
  access_control_request_headers = none;
}

abbrev post : ApiRequest
post = record get { method = codes "POST" }

same : Text → Text
same t = t

method_of : ApiRequest → Text
method_of r = r.method

program : Unit {0}
unfolding new_bucket new_limiter refill try_acquire allow extract_api_key is_public client_id
    limiter_of begin new_limits limit_request_size cross_origin refused_parameter refused
    authenticated rate_limit handle validate_input is_control no_text ApiKey.validate_key
    ApiKey.dispatch Csrf.dispatch Csrf.get_csrf_token Csrf.is_safe_method Csrf.has_text
    ApiKey.configured_key ApiKey.get_api_key strip lstrip is_space
program = tt

-- `int` on one digit, or on the limit and one more.
abbrev int : ToInt
int t =
    if text_eq t (codes "10485760")
    then some 10485760
    else if text_eq t (codes "10485761")
    then some 10485761
    else if text_eq t (codes "5")
    then some 5
    else none

-- A preflight request has an origin, the method OPTIONS and the method that it asks for.
abbrev cors : ApiRequest → Option Text
cors r =
    if text_eq r.method (codes "OPTIONS")
      && has_text r.origin
      && has_text r.access_control_request_method
    then some (codes "allowed")
    else none

abbrev outcome : ApiRequest → Outcome Text
outcome r =
    (handle int cors (some (codes "secret")) method_of true same (codes "t") (new_limits 60) r 0
      0).0

passes : outcome get ≡ handled (codes "GET")
unfolding program same method_of
passes = refl

wrong_key : outcome (record get { x_api_key = some (codes "other") }) ≡ invalid_key
unfolding program same
wrong_key = refl

no_token : outcome post ≡ token_missing
unfolding program same
no_token = refl

blank_parameter :
    outcome (record get { query_params = (codes "q", codes " ") ∷ [] })
    ≡ invalid_parameter (codes "q")
unfolding program same
blank_parameter = refl

large : outcome (record get { content_length = some (codes "10485761") }) ≡ too_large
unfolding program same
large = refl

at_limit : outcome (record get { content_length = some (codes "10485760") }) ≡ handled (codes "GET")
unfolding program same method_of
at_limit = refl

no_number : outcome (record get { content_length = some (codes "x") }) ≡ bad_length
unfolding program same
no_number = refl

abbrev asks : ApiRequest
asks = record get {
  method = codes "OPTIONS";
  origin = some (codes "https://a");
  access_control_request_method = some (codes "POST");
}

answered_by_cors : outcome asks ≡ preflight (codes "allowed")
unfolding program same
answered_by_cors = refl

from_environment : ApiKey.configured_key none (some (codes "e")) none ≡ some (codes "e")
unfolding program
from_environment = refl

abbrev sized : ApiRequest
sized = record get { content_length = some (codes "5") }
