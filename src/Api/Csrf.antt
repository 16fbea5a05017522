-- ===== src/Api/Csrf.antt =====
-- `CSRFProtectionMiddleware` of python-glue/unified_ai/api/csrf.py. The handler behind it, the fresh
-- token and the upper case of a text are parameters; of the cookie that is set, the token is kept.
pub mod Tokens
mod Tests
use unified_ai_orchestrator.Base.{
  Bool, true, false, Option, none, some, List, [], ◌∷◌, any, ◌||◌, not, if◌then◌else◌,
}
use unified_ai_orchestrator.Base.Text.{Text, codes, text_eq}

pub record CsrfRequest : Type 0 where
  pub method : Text
  pub csrf_header : Option Text
  pub csrf_cookie : Option Text

-- The response of the handler with the token of the cookie, or the HTTP error 403.
pub data CsrfResponse (R : Type 0) : Type 0 where
  passed : R → Text → CsrfResponse R
  token_missing : CsrfResponse R
  invalid_token : CsrfResponse R

unfoldable pub has_text : Option Text → Bool
has_text none = false
has_text (some []) = false
has_text (some (c ∷ t)) = true

same_token : Option Text → Option Text → Bool
same_token none none = true
same_token none (some t) = false
same_token (some t) none = false
same_token (some t) (some u) = text_eq t u

-- `_get_csrf_token`
unfoldable pub get_csrf_token : CsrfRequest → Option Text
unfolding has_text
get_csrf_token r = if has_text r.csrf_header then r.csrf_header else r.csrf_cookie

-- `_is_safe_method`
unfoldable pub is_safe_method : (Text → Text) → Text → Bool
is_safe_method upper method =
    any (text_eq (upper method)) (codes "GET" ∷ codes "HEAD" ∷ codes "OPTIONS" ∷ [])

-- `dispatch`
unfoldable pub dispatch :
    {R : Type 0} → (Text → Text) → (CsrfRequest → R) → Text → CsrfRequest → CsrfResponse R
unfolding has_text same_token
dispatch upper call_next fresh r =
    if is_safe_method upper r.method
    then passed (call_next r) fresh
    else (let csrf_token = get_csrf_token r in
        if not (has_text csrf_token)
        then token_missing
        else if not (same_token csrf_token r.csrf_cookie)
        then invalid_token
        else passed (call_next r) fresh)
