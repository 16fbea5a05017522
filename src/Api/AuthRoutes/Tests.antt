-- ===== src/Api/AuthRoutes/Tests.antt =====
-- A login and the life of an API key, and the theorems on them. A token here is its payload with the key that
-- signed it.
use unified_ai_orchestrator.Base.{
  ℕ, ◌+◌, ◌-◌, ◌≡◌, refl, inl, true, Option, none, some, [], ◌∷◌, ltb, if◌then◌else◌,
}
use unified_ai_orchestrator.Base.Text.{Text, codes, text_eq, text_eq_refl}
use unified_ai_orchestrator.Base.Dict.{Dict, lookup}
use unified_ai_orchestrator.Context.Compression.{strip, lstrip, is_space}
use unified_ai_orchestrator.Security.Auth
use unified_ai_orchestrator.Security.Auth.{
  Value, text, time, is_empty, get_secret_key, signed, stamp, lifetime, access_lifetime,
  refresh_lifetime, verify_token, create_access_token, create_refresh_token,
}
use unified_ai_orchestrator.Security.Auth.Tokens.{Decodes}
use unified_ai_orchestrator.Storage.Accounts
use unified_ai_orchestrator.Storage.Accounts.{KeyRow, UserInfo, info, is_current}
use unified_ai_orchestrator.Storage.Accounts.Unique.{IsValid}
use unified_ai_orchestrator.Storage.Accounts.Users.{new_row}
use unified_ai_orchestrator.Storage.Accounts.Fresh.{key_row}
use unified_ai_orchestrator.Storage.Audit
use unified_ai_orchestrator.Api.AuthRoutes.{
  Answered, answered, unauthorized, forbidden, conflict, Server, LoginResponse, token_data, text_of,
  acting, log, login, refresh,
}
use unified_ai_orchestrator.Api.AuthRoutes.Keys.{
  Zone, expiry, get_current_user_info, audit_page, logout, create_user, create_api_key,
  revoke_api_key, list_api_keys,
}
use unified_ai_orchestrator.Api.AuthRoutes.Keys.Owner.{create_api_key-works, revoke_api_key-any}
use unified_ai_orchestrator.Api.AuthRoutes.Login.{
  claims_of, LoggedIn, login-verified, refresh-login,
}

abbrev encode : Dict Value → Text → Dict Value × Text
encode payload key = (payload, key)

time_of : Option Value → ℕ
time_of none = 0
time_of (some (text t)) = 0
time_of (some (time n)) = n

abbrev decode : Dict Value × Text → Text → ℕ → Option (Dict Value)
decode (payload, signer) key now =
    if text_eq signer key
    then (if ltb (time_of (lookup "exp" payload)) now then none else some payload)
    else none

encode-Decodes : Decodes encode decode
unfolding time_of
encode-Decodes payload key now expire h = rw (text_eq_refl key, h) refl

abbrev env : Option Text
env = some (codes "secret")

abbrev ann : Accounts.UserRow
ann = new_row (codes "u1") (codes "ann") none (some (codes "pw")) (codes "user")

abbrev server : Server
server = record {
  accounts = record { users = ann ∷ []; api_keys = [] };
  audit_logs = record { next_id = 1; rows = [] };
}

program : Unit {0}
unfolding strip lstrip is_space is_empty get_secret_key signed stamp lifetime verify_token
    create_access_token create_refresh_token Accounts.returned Accounts.or_later Accounts.set_hash
    Accounts.revoke Accounts.create_user Accounts.clash Accounts.get_user
    Accounts.get_user_by_username Accounts.key_clash Accounts.create_api_key Accounts.is_usable
    Accounts.is_current Accounts.is_null Accounts.owner Accounts.joined Accounts.legacy
    Accounts.listed Accounts.get_api_key Accounts.list_api_keys Accounts.revoke_api_key
    Accounts.get_user_by_api_key_hash Audit.event_value Audit.log_audit_event Audit.log_event
    Audit.is_column Audit.fits Audit.get_audit_logs text_of acting log login refresh expiry
    get_current_user_info audit_page logout create_user create_api_key revoke_api_key list_api_keys
program = tt

abbrev tokens_at : ℕ → LoginResponse (Dict Value × Text)
tokens_at now = record {
  access_token =
      (stamp (claims_of (info ann)) (now + access_lifetime) (codes "access"), codes "secret");
  refresh_token =
      (stamp (claims_of (info ann)) (now + refresh_lifetime) (codes "refresh"), codes "secret");
  user_info = info ann;
}

abbrev ann_logs_in : Text → Answered (LoginResponse (Dict Value × Text)) × Server
ann_logs_in password = login true none encode env text_eq (codes "ann") password 100 server

right_password : (ann_logs_in (codes "pw")).0 ≡ answered (tokens_at 100)
unfolding program
right_password = refl

wrong_password : (ann_logs_in (codes "no")).0 ≡ unauthorized
unfolding program
wrong_password = refl

-- The local clock is an hour ahead, and from the reading 80000 on it is two hours ahead.
abbrev zone : Zone
zone = record {
  local = λ t. t + 3600;
  timestamp = λ reading. if ltb reading 80000 then reading - 3600 else reading - 7200;
}

abbrev ann_dict : Dict Value
ann_dict = token_data (codes "u1") (codes "ann") (codes "user")

abbrev same : Text → Text
same t = t

name_taken :
    (create_user true none same
      (codes "u2")
      ann_dict
      (codes "ann")
      none
      none
      (codes "user")
      9
      server).0
    ≡ conflict
unfolding program
name_taken = refl

for_another :
    (create_api_key true none zone same
      (codes "h1")
      (codes "k1")
      ann_dict
      (codes "u2")
      none
      (some 1)
      9
      server).0
    ≡ forbidden
unfolding program
for_another = refl

me : get_current_user_info ann_dict ≡ answered (codes "u1", some (codes "ann"), none, codes "user")
unfolding program
me = refl

one_event : Audit.AuditTable (Dict Value) → ℕ
one_event s = s.next_id

logged_out : one_event (logout true none ann_dict 9 server).1.audit_logs ≡ 2
unfolding program one_event
logged_out = refl

no_page : audit_page none none 10 0 server ≡ answered []
unfolding program
no_page = refl

no_keys : list_api_keys ann_dict (codes "u1") 9 server ≡ answered []
unfolding program
no_keys = refl

-- A key of a day, and one that eve, another user, has.
abbrev with_key : Server
with_key = record server {
  accounts = record {
    users = ann ∷ [];
    api_keys = key_row (codes "k9") (codes "eve") (codes "h9") none none 3 ∷ [];
  };
}

with_key-IsValid : IsValid with_key.accounts
with_key-IsValid = record { users_differ = (tt, tt); keys_differ = (tt, tt) }

server-IsValid : IsValid server.accounts
server-IsValid = record { users_differ = (tt, tt); keys_differ = tt }

login-verified_example :
    LoggedIn encode env text_eq (codes "ann") (codes "pw") server (tokens_at 100)
    × (verify_token decode env (tokens_at 100).access_token (codes "access") 500 ≡ (
        if ltb (100 + access_lifetime) 500
        then Auth.unauthorized
        else Auth.value (stamp (claims_of (info ann)) (100 + access_lifetime) (codes "access"))))
unfolding program
login-verified_example =
    login-verified encode env true none decode encode-Decodes text_eq (codes "ann") (codes "pw") 100
      500 server {r = tokens_at 100} refl

refresh-login_example :
    (t : Dict Value × Text) × (create_access_token encode env (claims_of (info ann)) none 5000
      ≡ some t)
    × (refresh encode env decode (tokens_at 100).refresh_token 5000
        ≡ (if ltb (100 + refresh_lifetime) 5000 then unauthorized else answered t))
    × (verify_token decode env t (codes "access") 6000 ≡ (
        if ltb (5000 + access_lifetime) 6000
        then Auth.unauthorized
        else Auth.value (stamp (claims_of (info ann)) (5000 + access_lifetime) (codes "access"))))
unfolding program
refresh-login_example =
    refresh-login encode env true none decode encode-Decodes text_eq (codes "ann") (codes "pw") 100
      5000 6000 server {r = tokens_at 100} refl

create_api_key-works_example :
    Accounts.get_user_by_api_key_hash
      (codes "h1")
      50
      (create_api_key true none zone same
        (codes "h1")
        (codes "k1")
        ann_dict
        (codes "u1")
        none
        (some 1)
        9
        server).1.accounts
    ≡ some (info ann)
unfolding program
create_api_key-works_example =
    create_api_key-works true none zone same (codes "h1") (codes "k1") ann_dict (codes "u1") none
      (some 1) 9 50 server
      {t = record {
        users = ann ∷ [];
        api_keys = key_row (codes "k1") (codes "u1") (codes "h1") none (some 82809) 9 ∷ [];
      }}
      {u = ann} (inl refl) server-IsValid refl refl refl

revoke_api_key-any_example :
    let (answer, s') = revoke_api_key true none ann_dict (codes "u1") (codes "k9") 10 with_key in
    (answer ≡ answered tt) × (Accounts.get_user_by_api_key_hash (codes "h9") 20 s'.accounts ≡ none)
unfolding program
revoke_api_key-any_example =
    revoke_api_key-any true none ann_dict (codes "u1") (codes "k9") 10 20 with_key
      {k = key_row (codes "k9") (codes "eve") (codes "h9") none none 3} refl with_key-IsValid refl
      refl
