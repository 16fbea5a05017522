-- ===== src/Security/Auth/Tests.antt =====
-- Runs of the authentication, and the theorems about it at concrete inputs. The tokens here are the
-- payloads themselves.
use unified_ai_orchestrator.Base.{
  ◌≡◌, ◌⊎◌, refl, ℕ, ◌+◌, false, Option, none, some, [], ◌∷◌, ltb, if◌then◌else◌,
}
use unified_ai_orchestrator.Base.Text.{Text, codes, text_eq, text_eq_refl}
use unified_ai_orchestrator.Base.Dict.{Dict, lookup}
use unified_ai_orchestrator.Context.Compression.{strip, lstrip, is_space}
use unified_ai_orchestrator.Security.Auth.{
  Value, text, time, value, unauthorized, is_empty, get_secret_key, stamp, lifetime,
  refresh_lifetime, create_access_token, create_refresh_token, verify_token, Request,
  authenticate_api_key_from_request, authenticate_api_key, authenticate_jwt, get_current_user,
  require_auth, is_valid_key,
}
use unified_ai_orchestrator.Security.Auth.Tokens.{Decodes, verify-create_refresh_token}
use unified_ai_orchestrator.Security.Auth.Keys.{Carries, KnownBy, require_auth-known}

program : Unit {0}
unfolding strip lstrip is_space is_empty get_secret_key stamp lifetime create_access_token
    create_refresh_token verify_token authenticate_api_key_from_request authenticate_api_key
    authenticate_jwt get_current_user require_auth is_valid_key
program = tt

-- A toy of the JWT library: a token is the payload with the key that signed it.
time_of : Option Value → ℕ
time_of none = 0
time_of (some (text t)) = 0
time_of (some (time n)) = n

abbrev encode : Dict Value → Text → Dict Value × Text
encode payload key = (payload, key)

abbrev decode : Dict Value × Text → Text → ℕ → Option (Dict Value)
decode (payload, signer) key now =
    if text_eq signer key
    then (if ltb (time_of (lookup "exp" payload)) now then none else some payload)
    else none

encode-Decodes : Decodes encode decode
unfolding time_of
encode-Decodes payload key now expire h = rw (text_eq_refl key, h) refl

abbrev env : Option Text
env = some (codes " secret ")

secret_is_stripped : get_secret_key env ≡ some (codes "secret")
unfolding program
secret_is_stripped = refl

abbrev alice : Dict Value
alice = ("sub", text (codes "alice")) ∷ ("type", text (codes "access")) ∷ []

verify-create_refresh_token_example :
    verify_token decode env
      (stamp alice (100 + refresh_lifetime) (codes "refresh"), codes "secret")
      (codes "access")
      130
    ≡ unauthorized
unfolding program
verify-create_refresh_token_example =
    verify-create_refresh_token encode decode encode-Decodes env alice 100 130 refl

-- No token verifies here; the users table has one key.
abbrev no_token : Text → Text → ℕ → Option (Dict Value)
no_token token key now = none

abbrev users : Text → Option (Dict Value)
users h = if text_eq h (codes "k1") then some alice else none

abbrev request : Request
request = record { x_api_key = some []; authorization = none; api_key_param = some (codes "k1") }

abbrev same : Text → Text
same t = t

by_parameter : require_auth no_token env users same none request (some (codes "t")) 5 ≡ value alice
unfolding program
by_parameter = refl

require_auth-known_example :
    (is_empty alice ≡ false)
    × (((token : Text) × (some (codes "t") ≡ some token)
          × (verify_token no_token env token (codes "access") 5 ≡ value alice))
        ⊎ ((key : Text) × Carries request key
            × (is_empty key ≡ false)
            × KnownBy users same none key alice))
require_auth-known_example =
    require_auth-known no_token env users same none request (some (codes "t")) 5 alice by_parameter
