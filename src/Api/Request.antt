-- ===== src/Api/Request.antt =====
-- What the middleware that python-glue/unified_ai/api/server.py puts before the routes reads of a
-- request, CORS included, and the two methods `_extract_api_key` of
-- python-glue/unified_ai/api/middleware.py, which have the same body.
use unified_ai_orchestrator.Base.{
  Bool, Option, none, some, List, [], any, ◌||◌, drop, if◌then◌else◌,
}
use unified_ai_orchestrator.Base.Text.{Text, codes, text_eq, starts_with, has_text}

-- `host` is `request.client.host`, `none` where there is no client.
pub record ApiRequest : Type 0 where
  pub method : Text
  pub path : Text
  pub x_api_key : Option Text
  pub authorization : Option Text
  pub api_key_param : Option Text
  pub query_params : List (Text × Text)
  pub host : Option Text
  pub csrf_header : Option Text
  pub csrf_cookie : Option Text
  pub content_length : Option Text
  pub origin : Option Text
  pub access_control_request_method : Option Text
  pub access_control_request_headers : Option Text

-- `request.headers.get("Authorization", "")`
header_text : Option Text → Text
header_text none = []
header_text (some header) = header

-- `APIKeyMiddleware._extract_api_key`
unfoldable pub extract_api_key : ApiRequest → Option Text
unfolding header_text
extract_api_key r =
    if has_text r.x_api_key
    then r.x_api_key
    else if starts_with (header_text r.authorization) (codes "Bearer ")
    then some (drop 7 (header_text r.authorization))
    else if has_text r.api_key_param
    then r.api_key_param
    else none

-- `path == "/"` or `any(path.startswith(public) for public in public_paths)`
unfoldable pub is_public : List Text → Text → Bool
is_public public_paths path = text_eq path (codes "/") || any (starts_with path) public_paths
