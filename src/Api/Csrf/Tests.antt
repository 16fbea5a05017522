-- ===== src/Api/Csrf/Tests.antt =====
-- Runs of the CSRF middleware, and its theorem at a forged request.
use unified_ai_orchestrator.Base.{◌≡◌, refl, Bool, true, none, some}
use unified_ai_orchestrator.Base.Text.{Text, codes}
use unified_ai_orchestrator.Api.Csrf.{
  CsrfRequest, passed, token_missing, invalid_token, has_text, get_csrf_token, is_safe_method,
  dispatch,
}

program : Unit {0}
unfolding has_text get_csrf_token is_safe_method dispatch
program = tt

abbrev same : Text → Text
same t = t

abbrev handler : CsrfRequest → Bool
handler r = true

-- A form of another site: the browser adds the cookie, and there is no header.
abbrev forged : CsrfRequest
forged = record { method = codes "POST"; csrf_header = none; csrf_cookie = some (codes "t") }

forged_passes : dispatch same handler (codes "u") forged ≡ passed true (codes "u")
unfolding program
forged_passes = refl

wrong_header :
    dispatch same handler (codes "u") (record forged { csrf_header = some (codes "x") })
    ≡ invalid_token
unfolding program
wrong_header = refl

no_cookie : dispatch same handler (codes "u") (record forged { csrf_cookie = none }) ≡ token_missing
unfolding program
no_cookie = refl
