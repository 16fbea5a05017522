-- ===== src/Api/RateLimit/Tests.antt =====
-- The rate limits of two clients on concrete requests.
use unified_ai_orchestrator.Base.{◌*◌, ◌≤◌, ◌≡◌, refl, arith, none, some, List, [], ◌∷◌, select}
use unified_ai_orchestrator.Base.Text.{Text, codes}
use unified_ai_orchestrator.Api.Request.{ApiRequest, extract_api_key, is_public}
use unified_ai_orchestrator.Resilience.RateLimiter.{
  new_bucket, new_limiter, refill, try_acquire, allow, remaining,
}
use unified_ai_orchestrator.Api.RateLimit.{
  RateLimits, new_limits, client_id, limiter_of, unlimited, admitted, limited, begin, finish,
}
use unified_ai_orchestrator.Api.RateLimit.Clients.{
  Event, came, returned, verdict, remains, is_of, answers, admissions, answers-alone,
  admissions-minute,
}
use unified_ai_orchestrator.Api.RateLimit.Keys.{verdicts, verdicts-fresh}

abbrev get_from : Text → ApiRequest
get_from host = record {
  method = codes "GET";
  path = codes "/api/v1/chat";
  x_api_key = none;
  authorization = none;
  api_key_param = none;
  query_params = [];
  host = some host;
  csrf_header = none;
  csrf_cookie = none;
  content_length = none;
  origin = none;
  access_control_request_method = none;
  access_control_request_headers = none;
}

abbrev with_key : Text → ApiRequest
with_key key = record (get_from (codes "h")) { x_api_key = some key }

abbrev one_in_a_minute : RateLimits
one_in_a_minute = record { requests_per_minute = 1; limiters = λ k. none }

abbrev two_clients : List Event
two_clients =
    came (get_from (codes "a")) 0 0
    ∷ came (get_from (codes "b")) 1 1
    ∷ came (get_from (codes "a")) 2 2
    ∷ returned (codes "b") 3
    ∷ []

program : Unit {0}
unfolding new_limits client_id limiter_of begin finish new_bucket new_limiter refill try_acquire
    allow remaining extract_api_key is_public
program = tt

first_only :
    answers (codes "a") one_in_a_minute two_clients ≡ verdict admitted ∷ verdict limited ∷ []
unfolding program
first_only = refl

other_client :
    answers (codes "b") one_in_a_minute two_clients ≡ verdict admitted ∷ remains (some 0) ∷ []
unfolding program
other_client = refl

empty_limits : new_limits 1 ≡ one_in_a_minute
unfolding program
empty_limits = refl

-- Keys with the same first 8 characters are one client, for the rate limit.
shared_prefix : client_id (with_key (codes "12345678x")) ≡ client_id (with_key (codes "12345678y"))
unfolding program
shared_prefix = refl

free_path :
    (begin one_in_a_minute (record (get_from (codes "a")) { path = codes "/health" }) 0 0).0
    ≡ unlimited
unfolding program
free_path = refl

answers-alone_example :
    answers (codes "a") one_in_a_minute two_clients
    ≡ answers (codes "a") one_in_a_minute (select (is_of (codes "a")) two_clients)
answers-alone_example = answers-alone (codes "a") one_in_a_minute two_clients

admissions-minute_example :
    admissions (
      answers
        (codes "a")
        one_in_a_minute
        (came (get_from (codes "a")) 0 0 ∷ came (get_from (codes "a")) 5 5 ∷ []))
    ≤ 2 * 1
unfolding program
admissions-minute_example =
    admissions-minute (codes "a") one_in_a_minute (get_from (codes "a")) 0 0
      (came (get_from (codes "a")) 5 5 ∷ []) refl refl (omega arith, (omega arith, tt))

verdicts-fresh_example :
    verdicts one_in_a_minute ((with_key (codes "x1"), 0, 0) ∷ (with_key (codes "x2"), 0, 0) ∷ [])
    ≡ admitted ∷ admitted ∷ []
unfolding program
verdicts-fresh_example =
    verdicts-fresh one_in_a_minute
      ((with_key (codes "x1"), 0, 0) ∷ (with_key (codes "x2"), 0, 0) ∷ []) (omega arith)
      ((refl, tt), (tt, tt)) ((refl, refl), ((refl, refl), tt))
