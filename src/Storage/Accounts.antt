-- ===== src/Storage/Accounts.antt =====
-- The tables `users` and `api_keys` of python-glue/unified_ai/storage/sqlite.py. `now` is the time that
-- the database or the process reads, in seconds. Of two rows that fit one SELECT the older one is
-- returned first. The times of creating and changing a user are not read and left out.
pub mod Unique
pub mod Users
pub mod Keys
pub mod Listed
pub mod Fresh
mod Tests
use unified_ai_orchestrator.Base.{
  ℕ, Bool, true, false, Option, none, some, List, [], ◌∷◌, ◌++◌, map, any, select, ◌&&◌, ◌||◌, not,
  ltb, leb, take, if◌then◌else◌,
}
use unified_ai_orchestrator.Base.Text.{Text, codes, text_eq, same_text}
use unified_ai_orchestrator.Base.Rows.{find_first, newest_first}

pub record UserRow : Type 0 where
  pub id : Text
  pub username : Text
  pub email : Option Text
  pub password_hash : Option Text
  pub role : Text
  pub api_key_hash : Option Text

pub record KeyRow : Type 0 where
  pub id : Text
  pub user_id : Text
  pub key_hash : Text
  pub name : Option Text
  pub expires_at : Option ℕ
  pub created_at : ℕ
  pub revoked_at : Option ℕ

pub record Accounts : Type 0 where
  pub users : List UserRow
  pub api_keys : List KeyRow

-- Two users that the PRIMARY KEY or a UNIQUE column keeps apart; no email is not an email.
unfoldable pub clash : UserRow → UserRow → Bool
clash u v = text_eq u.id v.id || text_eq u.username v.username || same_text u.email v.email

-- `create_user`: INSERT OR REPLACE deletes each row that the new one clashes with. The columns that are
-- not given are NULL.
unfoldable pub create_user : Text → Text → Option Text → Option Text → Text → Accounts → Accounts
unfolding clash
create_user user_id username email password_hash role s =
    let row : UserRow = record {
      id = user_id;
      username = username;
      email = email;
      password_hash = password_hash;
      role = role;
      api_key_hash = none;
    } in
    record s { users = select (λ u. not (clash u row)) s.users ++ row ∷ [] }

-- The dict of a user that every query returns.
pub record UserInfo : Type 0 where
  pub user_id : Text
  pub username : Text
  pub email : Option Text
  pub role : Text

abbrev pub info : UserRow → UserInfo
info u = record { user_id = u.id; username = u.username; email = u.email; role = u.role }

unfoldable pub returned : {A B : Type 0} → (A → B) → Option A → Option B
returned f none = none
returned f (some a) = some (f a)

-- `get_user`: the dict has the hash of the API key too.
unfoldable pub get_user : Text → Accounts → Option (UserInfo × Option Text)
unfolding returned
get_user i s = returned (λ u. (info u, u.api_key_hash)) (find_first (λ u. text_eq u.id i) s.users)

-- `get_user_by_username`: the dict has the hashes of the password and of the API key too.
unfoldable pub get_user_by_username :
    Text → Accounts → Option (UserInfo × Option Text × Option Text)
unfolding returned
get_user_by_username name s =
    returned (λ u. (info u, u.password_hash, u.api_key_hash))
      (find_first (λ u. text_eq u.username name) s.users)

-- `expires_at IS NULL OR expires_at > now`
unfoldable pub is_current : Option ℕ → ℕ → Bool
is_current none now = true
is_current (some t) now = ltb now t

unfoldable pub is_null : Option ℕ → Bool
is_null none = true
is_null (some t) = false

-- `ak.revoked_at IS NULL AND (ak.expires_at IS NULL OR ak.expires_at > now)`
unfoldable pub is_usable : KeyRow → ℕ → Bool
unfolding is_current is_null
is_usable k now = is_null k.revoked_at && is_current k.expires_at now

unfoldable pub owner : KeyRow → List UserRow → Option UserRow
owner k users = find_first (λ u. text_eq u.id k.user_id) users

unfoldable pub or_later : Option UserRow → Option UserInfo → Option UserInfo
or_later none later = later
or_later (some u) later = some (info u)

-- The join of the keys with their users, under the WHERE clause.
unfoldable pub joined : Text → ℕ → List UserRow → List KeyRow → Option UserInfo
unfolding or_later
joined h now users [] = none
joined h now users (k ∷ ks) =
    let later = joined h now users ks in
    if text_eq k.key_hash h && is_usable k now then or_later (owner k users) later else later

-- The legacy column of the users table.
unfoldable pub legacy : Text → List UserRow → Option UserRow
legacy h users = find_first (λ u. same_text u.api_key_hash (some h)) users

-- `get_user_by_api_key_hash`
unfoldable pub get_user_by_api_key_hash : Text → ℕ → Accounts → Option UserInfo
unfolding or_later
get_user_by_api_key_hash h now s = or_later (legacy h s.users) (joined h now s.users s.api_keys)

unfoldable pub set_hash : Text → Text → UserRow → UserRow
set_hash i h u = if text_eq u.id i then record u { api_key_hash = some h } else u

-- `update_user_api_key_hash`
unfoldable pub update_user_api_key_hash : Text → Text → Accounts → Accounts
unfolding set_hash
update_user_api_key_hash i h s = record s { users = map (set_hash i h) s.users }

unfoldable pub key_clash : KeyRow → KeyRow → Bool
key_clash k l = text_eq k.id l.id || text_eq k.key_hash l.key_hash

-- `create_api_key`; `none` is the `IntegrityError` of a key or a hash that is there already.
unfoldable pub create_api_key :
    Text → Text → Text → Option Text → Option ℕ → ℕ → Accounts → Option Accounts
unfolding key_clash
create_api_key key_id user_id key_hash name expires_at now s =
    let row : KeyRow = record {
      id = key_id;
      user_id = user_id;
      key_hash = key_hash;
      name = name;
      expires_at = expires_at;
      created_at = now;
      revoked_at = none;
    } in
    if any (λ k. key_clash k row) s.api_keys
    then none
    else some (record s { api_keys = s.api_keys ++ row ∷ [] })

unfoldable pub revoke : Text → ℕ → KeyRow → KeyRow
revoke i now k = if text_eq k.id i then record k { revoked_at = some now } else k

-- `revoke_api_key`
unfoldable pub revoke_api_key : Text → ℕ → Accounts → Accounts
unfolding revoke
revoke_api_key i now s = record s { api_keys = map (revoke i now) s.api_keys }

-- `get_api_key`
unfoldable pub get_api_key : Text → Accounts → Option KeyRow
get_api_key i s = find_first (λ k. text_eq k.id i) s.api_keys

-- An entry of `list_api_keys`.
pub record ListedKey : Type 0 where
  pub id : Text
  pub key_hash : Option Text
  pub name : Option Text
  pub expires_at : Option ℕ
  pub created_at : ℕ
  pub revoked_at : Option ℕ
  pub is_active : Bool

-- `key_hash[:8] + "..."`, unless it is empty.
partial_hash : Text → Option Text
partial_hash [] = none
partial_hash (c ∷ t) = some (take 8 (c ∷ t) ++ codes "...")

unfoldable pub listed : ℕ → KeyRow → ListedKey
unfolding partial_hash is_null is_current
listed now k = record {
  id = k.id;
  key_hash = partial_hash k.key_hash;
  name = k.name;
  expires_at = k.expires_at;
  created_at = k.created_at;
  revoked_at = k.revoked_at;
  is_active = is_null k.revoked_at && is_current k.expires_at now;
}

-- `list_api_keys`, with `ORDER BY created_at DESC`.
unfoldable pub list_api_keys : Text → ℕ → Accounts → List ListedKey
list_api_keys user_id now s =
    map (listed now)
      (newest_first (λ k. k.created_at) [] (select (λ k. text_eq k.user_id user_id) s.api_keys))
