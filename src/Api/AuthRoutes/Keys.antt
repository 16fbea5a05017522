-- ===== src/Api/AuthRoutes/Keys.antt =====
-- The routes of python-glue/unified_ai/api/auth_routes.py on users and API keys, and on the audit log.
pub mod Owner
use Prim.Native.String.{String}
use unified_ai_orchestrator.Base.{
  ℕ, ◌+◌, ◌*◌, ◌==◌, Bool, true, false, Option, none, some, List, [], ◌∷◌, is_some, if◌then◌else◌,
}
use unified_ai_orchestrator.Base.Text.{Text, codes, has_text}
use unified_ai_orchestrator.Base.Dict.{Dict, lookup}
use unified_ai_orchestrator.Security.Auth.{Value, text}
use unified_ai_orchestrator.Storage.Accounts
use unified_ai_orchestrator.Storage.Accounts.{UserInfo, ListedKey}
use unified_ai_orchestrator.Storage.Audit.{
  auth_logout, resource_create, resource_delete, admin_action, AuditRow, get_audit_logs,
}
use unified_ai_orchestrator.Api.AuthRoutes.{
  Answered, answered, unauthorized, forbidden, conflict, raised, Server, KeyResponse, text_of,
  role_or_user, acting, blank_event, log, log_key,
}

abbrev pub day : ℕ
day = 24 * 60 * 60

-- The server's time zone: the reading of the local clock at a time, `datetime.now()`, and the time of
-- such a reading, `timestamp()`, both in seconds.
pub record Zone : Type 0 where
  pub local : ℕ → ℕ
  pub timestamp : ℕ → ℕ

-- `if request.expires_days`: the days are counted on the local clock.
unfoldable pub expiry : Zone → Option ℕ → ℕ → Option ℕ
expiry zone none now = none
expiry zone (some days) now =
    if days == 0 then none else some (zone.timestamp (zone.local now + days * day))

-- `get_current_user_info`; the email is the empty text where the dict has none.
unfoldable pub get_current_user_info :
    Dict Value → Answered (Text × Option Text × Option Text × Text)
unfolding role_or_user
get_current_user_info u = elim (text_of (lookup "user_id" u)) [
  | none ↦ raised
  | some user_id ↦ answered (
    user_id,
    text_of (lookup "username" u),
    text_of (lookup "email" u),
    role_or_user (lookup "role" u),
  )
]

-- `get_audit_logs`, for an administrator.
unfoldable pub audit_page :
    Option Text → Option Text → ℕ → ℕ → Server → Answered (List (AuditRow (Dict Value)))
audit_page user_id event_type limit offset s =
    answered (get_audit_logs user_id event_type limit offset s.audit_logs)

module _ (audit_works : Bool) (ip_address : Option Text) where
  -- `logout`: no token is taken back.
  unfoldable pub logout : Dict Value → ℕ → Server → Answered (Unit {0}) × Server
  logout u now s = elim (text_of (lookup "user_id" u)) [
    | none ↦ (raised, s)
    | some user_id ↦ (
      answered tt,
      log audit_works ip_address auth_logout
          (record blank_event { user_id = some user_id; ip_address = ip_address }) now s,
    )
  ]

  -- `create_user` of security/auth.py: `user_id` is fresh, and an empty password is none.
  hashed : (Text → Text) → Option Text → Option Text
  hashed hash_password none = none
  hashed hash_password (some []) = none
  hashed hash_password (some (c ∷ t)) = some (hash_password (c ∷ t))

  -- `create_user`
  unfoldable pub create_user :
      (Text → Text)
      → Text
      → Dict Value
      → Text
      → Option Text
      → Option Text
      → Text
      → ℕ
      → Server
      → Answered UserInfo × Server
  unfolding hashed
  create_user hash_password user_id admin_user username email password role now s =
      if is_some (Accounts.get_user_by_username username s.accounts)
      then (conflict, s)
      else (let stored = record s {
        accounts =
            Accounts.create_user user_id username email (hashed hash_password password) role
              s.accounts;
      } in
          elim (text_of (lookup "user_id" admin_user)) [
            | none ↦ (raised, stored)
            | some admin_id ↦ (
              answered
                  (record { user_id = user_id; username = username; email = email; role = role }),
              log audit_works ip_address admin_action
                  (record blank_event {
                    user_id = some admin_id;
                    resource_type = some (codes "user");
                    resource_id = some user_id;
                    details = some (
                        ("action", text (codes "create"))
                        ∷ ("username", text username)
                        ∷ ("role", text role)
                        ∷ []);
                    ip_address = ip_address;
                  })
                  now stored,
            )
          ])

  -- The details of the event of a new key; a name that is missing is not an entry of its own here.
  key_details : Text → Option Text → Dict Value
  key_details user_id none = ("user_id", text user_id) ∷ []
  key_details user_id (some name) = ("user_id", text user_id) ∷ ("name", text name) ∷ []

  -- The response of `create_api_key`. `datetime` is imported only where the request has `expires_days`, so
  -- that the last line raises an `UnboundLocalError` where it has none.
  key_response : Text → Text → Option Text → Option ℕ → Answered KeyResponse
  key_response key_id api_key name none = raised
  key_response key_id api_key name (some t) =
      answered (record { id = key_id; key = api_key; name = name; expires_at = some t })

  key_stored :
      Text
      → Text
      → Option Text
      → Text
      → Option ℕ
      → Dict Value
      → ℕ
      → Option Accounts.Accounts
      → Server
      → Answered KeyResponse × Server
  unfolding key_details key_response
  key_stored key_id api_key name user_id expires_at current_user now none s = (raised, s)
  key_stored key_id api_key name user_id expires_at current_user now (some accounts) s = (
    key_response key_id api_key name expires_at,
    log_key audit_works ip_address resource_create (text_of (lookup "user_id" current_user)) key_id
        (key_details user_id name) now (record s { accounts = accounts }),
  )

  -- `create_api_key`: `api_key` and `key_id` are fresh, and `hash` is SHA256.
  unfoldable pub create_api_key :
      Zone
      → (Text → Text)
      → Text
      → Text
      → Dict Value
      → Text
      → Option Text
      → Option ℕ
      → ℕ
      → Server
      → Answered KeyResponse × Server
  unfolding key_stored log_key
  create_api_key zone hash api_key key_id current_user user_id name expires_days now s =
      elim (acting current_user user_id) [
        | answered allowed ↦
            key_stored key_id api_key name user_id (expiry zone expires_days now) current_user now
              (Accounts.create_api_key key_id user_id (hash api_key) name
                (expiry zone expires_days now) now s.accounts)
              s
        | unauthorized ↦ (unauthorized, s)
        | forbidden ↦ (forbidden, s)
        | conflict ↦ (conflict, s)
        | raised ↦ (raised, s)
      ]

  -- `revoke_api_key`: the key is not looked up.
  unfoldable pub revoke_api_key :
      Dict Value → Text → Text → ℕ → Server → Answered (Unit {0}) × Server
  unfolding log_key
  revoke_api_key current_user user_id key_id now s = elim (acting current_user user_id) [
    | answered allowed ↦ (
      answered tt,
      log_key audit_works ip_address resource_delete (text_of (lookup "user_id" current_user))
          key_id (("user_id", text user_id) ∷ []) now
          (record s { accounts = Accounts.revoke_api_key key_id now s.accounts }),
    )
    | unauthorized ↦ (unauthorized, s)
    | forbidden ↦ (forbidden, s)
    | conflict ↦ (conflict, s)
    | raised ↦ (raised, s)
  ]

-- `list_api_keys`
unfoldable pub list_api_keys : Dict Value → Text → ℕ → Server → Answered (List ListedKey)
list_api_keys current_user user_id now s = elim (acting current_user user_id) [
  | answered allowed ↦ answered (Accounts.list_api_keys user_id now s.accounts)
  | unauthorized ↦ unauthorized
  | forbidden ↦ forbidden
  | conflict ↦ conflict
  | raised ↦ raised
]
