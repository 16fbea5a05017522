-- ===== src/Security/Auth.antt =====
-- python-glue/unified_ai/security/auth.py. The environment variables, the time (in seconds), the
-- JWT library (a type of tokens, `encode`, `decode` with HS256, `none` for its `JWTError`), the SHA256 hash and the
-- users table are parameters. A `timedelta` is a number of seconds, not negative.
pub mod Tokens
pub mod Keys
mod Tests
use Prim.Native.String.{String}
use unified_ai_orchestrator.Base.{
  ℕ, ◌+◌, ◌*◌, Bool, true, false, Option, none, some, List, [], ◌∷◌, ◌&&◌, ◌||◌, not, ltb, length,
  drop, if◌then◌else◌,
}
use unified_ai_orchestrator.Base.Text.{Text, codes, text_eq, starts_with}
use unified_ai_orchestrator.Base.Dict.{Dict, lookup, insert}
use unified_ai_orchestrator.Context.Compression.{strip}

-- A value of a payload or of a user's dict: a string or a time.
pub data Value : Type 0 where
  text : Text → Value
  time : ℕ → Value

-- What a call ends with: a value, the HTTP error 401, or the `ValueError` of the missing secret.
pub data Reply (A : Type 0) : Type 0 where
  value : A → Reply A
  unauthorized : Reply A
  value_error : Reply A

unfoldable pub is_empty {ℓ} : {A : Type ℓ} → List A → Bool
is_empty [] = true
is_empty (x ∷ xs) = false

abbrev pub placeholder : Text
placeholder = codes "change-me-in-production"

-- `secret and secret.strip() and secret.strip() != "change-me-in-production"`
usable : Option Text → Bool
usable none = false
usable (some secret) =
    not (is_empty secret)
    && not (is_empty (strip secret))
    && not (text_eq (strip secret) placeholder)

stripped : Option Text → Option Text
stripped none = none
stripped (some secret) = some (strip secret)

with_default : Option Text → Text → Text
with_default none default = default
with_default (some secret) default = secret

-- `get_secret_key`, on the value of `JWT_SECRET_KEY`; `none` is its `ValueError`.
unfoldable pub get_secret_key : Option Text → Option Text
unfolding usable stripped with_default
get_secret_key env =
    if usable env
    then stripped env
    else (let secret = with_default env placeholder in
        if is_empty secret || is_empty (strip secret) || text_eq (strip secret) placeholder
        then none
        else some (strip secret))

-- `to_encode.update({"exp": expire, "type": ...})` on the copy of the data.
unfoldable pub stamp : Dict Value → ℕ → Text → Dict Value
stamp data_given expire token_type =
    insert "type" (text token_type) (insert "exp" (time expire) data_given)

-- `ACCESS_TOKEN_EXPIRE_MINUTES`, `REFRESH_TOKEN_EXPIRE_DAYS`, in seconds.
abbrev pub access_lifetime : ℕ
access_lifetime = 30 * 60

abbrev pub refresh_lifetime : ℕ
refresh_lifetime = 7 * 24 * 60 * 60

-- `if expires_delta`: a `timedelta` of zero is false.
unfoldable pub lifetime : Option ℕ → ℕ
lifetime none = access_lifetime
lifetime (some expires_delta) = if ltb 0 expires_delta then expires_delta else access_lifetime

-- `payload.get("type") == token_type`
type_is : Option Value → Text → Bool
type_is none token_type = false
type_is (some (text t)) token_type = text_eq t token_type
type_is (some (time n)) token_type = false

checked : Option (Dict Value) → Text → Reply (Dict Value)
checked none token_type = unauthorized
checked (some payload) token_type =
    if type_is (lookup "type" payload) token_type then value payload else unauthorized

unfoldable pub signed : {T : Type 0} → (Dict Value → Text → T) → Option Text → Dict Value → Option T
signed encode none payload = none
signed encode (some key) payload = some (encode payload key)

-- `create_access_token`, `create_refresh_token`, at the time `now`.
unfoldable pub create_access_token :
    {T : Type 0} → (Dict Value → Text → T) → Option Text → Dict Value → Option ℕ → ℕ → Option T
unfolding signed
create_access_token encode env data_given expires_delta now =
    signed encode (get_secret_key env)
      (stamp data_given (now + lifetime expires_delta) (codes "access"))

unfoldable pub create_refresh_token :
    {T : Type 0} → (Dict Value → Text → T) → Option Text → Dict Value → ℕ → Option T
unfolding signed
create_refresh_token encode env data_given now =
    signed encode (get_secret_key env) (stamp data_given (now + refresh_lifetime) (codes "refresh"))

decoded :
    {T : Type 0}
    → (T → Text → ℕ → Option (Dict Value))
    → Option Text
    → T
    → Text
    → ℕ
    → Reply (Dict Value)
decoded decode none token token_type now = value_error
decoded decode (some key) token token_type now = checked (decode token key now) token_type

-- `verify_token`
unfoldable pub verify_token :
    {T : Type 0}
    → (T → Text → ℕ → Option (Dict Value))
    → Option Text
    → T
    → Text
    → ℕ
    → Reply (Dict Value)
unfolding decoded checked type_is
verify_token decode env token token_type now =
    decoded decode (get_secret_key env) token token_type now

-- `authenticate_jwt`, on the credentials of the bearer scheme.
unfoldable pub authenticate_jwt :
    (Text → Text → ℕ → Option (Dict Value)) → Option Text → Option Text → ℕ → Reply (Dict Value)
authenticate_jwt decode env none now = unauthorized
authenticate_jwt decode env (some token) now = verify_token decode env token (codes "access") now

-- What the code reads of a request.
pub record Request : Type 0 where
  pub x_api_key : Option Text
  pub authorization : Option Text
  pub api_key_param : Option Text

present : Option Text → Bool
present none = false
present (some t) = not (is_empty t)

-- `Bearer ` and a token of more than fifty characters.
abbrev pub long_token : Text → Bool
long_token header = starts_with header (codes "Bearer ") && ltb 50 (length (drop 7 header))

-- `authenticate_api_key_from_request`
unfoldable pub authenticate_api_key_from_request : Request → Option Text
unfolding present with_default
authenticate_api_key_from_request r =
    if present r.x_api_key
    then r.x_api_key
    else (let auth_header = with_default r.authorization [] in
        if long_token auth_header
        then some (drop 7 auth_header)
        else if present r.api_key_param
        then r.api_key_param
        else none)

abbrev pub api_user : Dict Value
api_user = ("user_id", text (codes "api_user")) ∷ ("role", text (codes "user")) ∷ []

-- `valid_key and api_key == valid_key`
unfoldable pub is_valid_key : Option Text → Text → Bool
is_valid_key none api_key = false
is_valid_key (some valid_key) api_key = not (is_empty valid_key) && text_eq api_key valid_key

-- The user found for the key, if its dict has an entry, or the user of the environment's key.
from_environment : Option Text → Text → Reply (Dict Value)
from_environment valid_key api_key =
    if is_valid_key valid_key api_key then value api_user else unauthorized

by_key : Option (Dict Value) → Option Text → Text → Reply (Dict Value)
by_key none valid_key api_key = from_environment valid_key api_key
by_key (some u) valid_key api_key =
    if is_empty u then from_environment valid_key api_key else value u

authenticate_key :
    (Text → Option (Dict Value)) → (Text → Text) → Option Text → Option Text → Reply (Dict Value)
authenticate_key users hash valid_key none = unauthorized
authenticate_key users hash valid_key (some api_key) =
    if is_empty api_key then unauthorized else by_key (users (hash api_key)) valid_key api_key

-- `authenticate_api_key`: `users` is `get_user_by_api_key_hash` of the storage.
unfoldable pub authenticate_api_key :
    (Text → Option (Dict Value)) → (Text → Text) → Option Text → Request → Reply (Dict Value)
unfolding authenticate_key by_key from_environment
authenticate_api_key users hash valid_key r =
    authenticate_key users hash valid_key (authenticate_api_key_from_request r)

-- `try ... except HTTPException: pass`: the error 401 goes on to the next one.
or_next : Reply (Dict Value) → Reply (Option (Dict Value)) → Reply (Option (Dict Value))
or_next (value u) next = value (some u)
or_next unauthorized next = next
or_next value_error next = value_error

-- `get_current_user`. Without credentials the JWT is not tried, which is `unauthorized` here.
unfoldable pub get_current_user :
    (Text → Text → ℕ → Option (Dict Value))
    → Option Text
    → (Text → Option (Dict Value))
    → (Text → Text)
    → Option Text
    → Request
    → Option Text
    → ℕ
    → Reply (Option (Dict Value))
unfolding or_next
get_current_user decode env users hash valid_key r credentials now =
    or_next (authenticate_jwt decode env credentials now)
      (or_next (authenticate_api_key users hash valid_key r) (value none))

required : Reply (Option (Dict Value)) → Reply (Dict Value)
required (value none) = unauthorized
required (value (some u)) = if is_empty u then unauthorized else value u
required unauthorized = unauthorized
required value_error = value_error

-- `require_auth`
unfoldable pub require_auth :
    (Text → Text → ℕ → Option (Dict Value))
    → Option Text
    → (Text → Option (Dict Value))
    → (Text → Text)
    → Option Text
    → Request
    → Option Text
    → ℕ
    → Reply (Dict Value)
unfolding required
require_auth decode env users hash valid_key r credentials now =
    required (get_current_user decode env users hash valid_key r credentials now)
