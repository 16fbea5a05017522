-- ===== src/Api/AuthRoutes.antt =====
-- python-glue/unified_ai/api/auth_routes.py, with the lines after 98, 112 and 124 read as indented into
-- their `if`: as it stands, the module does not parse. The tables are those of SQLite. `logged_in` and
-- the like are what the dependencies of a route have made of the request; the checks of
-- pydantic and closing the storage are left out. The JWT library, the hashes, the fresh
-- identifiers and the time are parameters, and so is whether the audit log can be written.
pub mod Keys
pub mod Login
mod Tests
use Prim.Native.String.{String}
use unified_ai_orchestrator.Base.{
  ℕ, ◌+◌, ◌*◌, ◌==◌, Bool, true, false, Option, none, some, List, [], ◌∷◌, ◌||◌, not, is_some,
  if◌then◌else◌,
}
use unified_ai_orchestrator.Base.Text.{Text, codes, text_eq, has_text}
use unified_ai_orchestrator.Base.Dict.{Dict, lookup}
use unified_ai_orchestrator.Security.Auth
use unified_ai_orchestrator.Security.Auth.{
  Value, text, time, is_empty, create_access_token, create_refresh_token, verify_token,
}
use unified_ai_orchestrator.Storage.Accounts
use unified_ai_orchestrator.Storage.Accounts.{UserInfo, ListedKey}
use unified_ai_orchestrator.Storage.Audit.{
  AuditEventType, auth_success, auth_failure, auth_logout, resource_create, resource_delete,
  admin_action, AuditEvent, AuditRow, AuditTable, log_event, get_audit_logs,
}

-- A response, or an HTTP error: 401, 403, 409, and 500 for any other exception.
pub data Answered (A : Type 0) : Type 0 where
  answered : A → Answered A
  unauthorized forbidden conflict raised : Answered A

pub record Server : Type 0 where
  pub accounts : Accounts.Accounts
  pub audit_logs : AuditTable (Dict Value)

-- `LoginResponse`
pub record LoginResponse (T : Type 0) : Type 0 where
  pub access_token : T
  pub refresh_token : T
  pub user_info : UserInfo

-- `APIKeyResponse`, without the time.
pub record KeyResponse : Type 0 where
  pub id : Text
  pub key : Text
  pub name : Option Text
  pub expires_at : Option ℕ

-- `token_data`
abbrev pub token_data : Text → Text → Text → Dict Value
token_data user_id username role =
    ("user_id", text user_id) ∷ ("username", text username) ∷ ("role", text role) ∷ []

-- The value of a key is this text.
says : Option Value → Text → Bool
says none wanted = false
says (some (time n)) wanted = false
says (some (text t)) wanted = text_eq t wanted

-- A text, such as an identifier, of a user's dict.
unfoldable pub text_of : Option Value → Option Text
text_of none = none
text_of (some (time n)) = none
text_of (some (text t)) = some t

-- `current_user["user_id"] != user_id and current_user.get("role") != "admin"` gives the error 403, and
-- a missing identifier a `KeyError`.
unfoldable pub acting : Dict Value → Text → Answered (Unit {0})
unfolding says
acting current_user user_id =
    if is_some (lookup "user_id" current_user)
    then if says (lookup "user_id" current_user) user_id
        || says (lookup "role" current_user) (codes "admin")
      then answered tt
      else forbidden
    else raised

-- `payload.get("role", "user")`
role_or_user : Option Value → Text
role_or_user none = codes "user"
role_or_user (some (time n)) = codes "user"
role_or_user (some (text t)) = t

abbrev blank_event : AuditEvent (Dict Value)
blank_event = record {
  user_id = none;
  resource_type = none;
  resource_id = none;
  details = none;
  ip_address = none;
  user_agent = none;
}

has_entry : Dict Value → Bool
has_entry d = not (is_empty d)

module _ {T : Type 0} (encode : Dict Value → Text → T) (env : Option Text) where
  both : Option T → Option T → UserInfo → Option (LoginResponse T)
  both none refresh u = none
  both (some access) none u = none
  both (some access) (some refresh) u =
      some (record { access_token = access; refresh_token = refresh; user_info = u })

  -- The two tokens; `none` is the `ValueError` of a missing secret.
  tokens : UserInfo → ℕ → Option (LoginResponse T)
  unfolding both
  tokens u now =
      let claims = token_data u.user_id u.username u.role in
      both (create_access_token encode env claims none now)
        (create_refresh_token encode env claims now) u

  or_raised : Option T → Answered T
  or_raised none = raised
  or_raised (some t) = answered t

  -- The new access token, from the claims of the refresh token; a missing one is a `KeyError`.
  renewed : Dict Value → ℕ → Answered T
  unfolding or_raised role_or_user
  renewed payload now = elim (text_of (lookup "user_id" payload)) [
    | none ↦ raised
    | some user_id ↦ elim (text_of (lookup "username" payload)) [
      | none ↦ raised
      | some username ↦ or_raised (
          create_access_token encode env
            (token_data user_id username (role_or_user (lookup "role" payload))) none now)
    ]
  ]

  by_reply : Auth.Reply (Dict Value) → ℕ → Answered T
  unfolding renewed
  by_reply (Auth.value payload) now = renewed payload now
  by_reply Auth.unauthorized now = unauthorized
  by_reply Auth.value_error now = raised

  -- `refresh`
  unfoldable pub refresh : (T → Text → ℕ → Option (Dict Value)) → T → ℕ → Answered T
  unfolding by_reply
  refresh decode token now = by_reply (verify_token decode env token (codes "refresh") now) now

module _ (audit_works : Bool) (ip_address : Option Text) where
  -- `AuditLogger.log_event`, at the time `now`.
  unfoldable pub log : AuditEventType → AuditEvent (Dict Value) → ℕ → Server → Server
  unfolding has_entry
  log event_type e now s = record s {
    audit_logs = log_event has_entry audit_works event_type e now s.audit_logs;
  }

  -- `AuditLogger.log_auth_failure`
  log_auth_failure : Option Text → Text → ℕ → Server → Server
  log_auth_failure user_id reason now s =
      log auth_failure
        (record blank_event {
          user_id = user_id;
          details = some (("reason", text reason) ∷ []);
          ip_address = ip_address;
        })
        now s

  -- `AuditLogger.log_auth_success`
  log_auth_success : Text → Text → ℕ → Server → Server
  log_auth_success user_id auth_method now s =
      log auth_success
        (record blank_event {
          user_id = some user_id;
          details = some (("auth_method", text auth_method) ∷ []);
          ip_address = ip_address;
        })
        now s

  -- An event about an API key.
  log_key : AuditEventType → Option Text → Text → Dict Value → ℕ → Server → Server
  log_key event_type user_id key_id details now s =
      log event_type
        (record blank_event {
          user_id = user_id;
          resource_type = some (codes "api_key");
          resource_id = some key_id;
          details = some details;
          ip_address = ip_address;
        })
        now s

  module _ {T : Type 0} (encode : Dict Value → Text → T) (env : Option Text) where
    let_in : UserInfo → ℕ → Option (LoginResponse T) → Server → Answered (LoginResponse T) × Server
    let_in u now none s = (raised, s)
    let_in u now (some r) s = (answered r, log_auth_success u.user_id (codes "password") now s)

    check_password :
        (Text → Text → Bool)
        → UserInfo
        → Option Text
        → Text
        → ℕ
        → Server
        → Answered (LoginResponse T) × Server
    unfolding tokens let_in log_auth_failure
    check_password verify_password u none password now s =
        (unauthorized, log_auth_failure (some u.user_id) (codes "No password set") now s)
    check_password verify_password u (some []) password now s =
        (unauthorized, log_auth_failure (some u.user_id) (codes "No password set") now s)
    check_password verify_password u (some (c ∷ h)) password now s =
        if verify_password password (c ∷ h)
        then let_in u now (tokens encode env u now) s
        else (unauthorized, log_auth_failure (some u.user_id) (codes "Invalid password") now s)

    for_user :
        (Text → Text → Bool)
        → Option (UserInfo × Option Text × Option Text)
        → Text
        → ℕ
        → Server
        → Answered (LoginResponse T) × Server
    unfolding check_password
    for_user verify_password none password now s =
        (unauthorized, log_auth_failure none (codes "User not found") now s)
    for_user verify_password (some (u, password_hash, key_hash)) password now s =
        check_password verify_password u password_hash password now s

    -- `login`
    unfoldable pub login :
        (Text → Text → Bool) → Text → Text → ℕ → Server → Answered (LoginResponse T) × Server
    unfolding for_user log_auth_success
    login verify_password username password now s =
        for_user verify_password (Accounts.get_user_by_username username s.accounts) password now s
