-- ===== src/Storage/Postgres.antt =====
-- The tables `users` and `api_keys` of python-glue/unified_ai/storage/postgres.py, in the rows of
-- Storage/Accounts. `none` is the exception of a constraint: a UNIQUE column, or the foreign key
-- of a key's user. PostgreSQL rejects nothing else here: the lengths of the columns are left out.
-- A time `ms` is in milliseconds, and so are created_at and revoked_at, which are timestamps here;
-- expires_at is in seconds. `first` is the row that `fetchrow` gets of those that a query without an
-- order finds.
pub mod Agree
mod Tests
use unified_ai_orchestrator.Base.{
  ℕ, ◌+◌, ◌/◌, Bool, true, false, Option, none, some, List, [], ◌∷◌, ◌++◌, map, any, select, ◌&&◌,
  ◌||◌, not, if◌then◌else◌,
}
use unified_ai_orchestrator.Base.Text.{Text, text_eq, same_text}
use unified_ai_orchestrator.Base.Rows.{find_first, newest_first}
use unified_ai_orchestrator.Storage.Accounts.{
  UserRow, KeyRow, Accounts, UserInfo, info, returned, is_usable, owner, or_later, set_hash,
  key_clash, revoke, ListedKey, listed,
}

-- Another row has the name or the email.
unfoldable pub taken : UserRow → UserRow → Bool
taken row u =
    not (text_eq u.id row.id) && (text_eq u.username row.username || same_text u.email row.email)

-- `ON CONFLICT (id) DO UPDATE SET`: the hash of the API key stays.
replaced : UserRow → UserRow → UserRow
replaced row u = if text_eq u.id row.id then record row { api_key_hash = u.api_key_hash } else u

-- `create_user`
unfoldable pub create_user :
    Text → Text → Option Text → Option Text → Text → Accounts → Option Accounts
unfolding taken replaced
create_user user_id username email password_hash role s =
    let row : UserRow = record {
      id = user_id;
      username = username;
      email = email;
      password_hash = password_hash;
      role = role;
      api_key_hash = none;
    } in
    if any (taken row) s.users
    then none
    else if any (λ u. text_eq u.id user_id) s.users
    then some (record s { users = map (replaced row) s.users })
    else some (record s { users = s.users ++ row ∷ [] })

-- `get_user`
unfoldable pub get_user : Text → Accounts → Option (UserInfo × Option Text)
unfolding returned
get_user i s = returned (λ u. (info u, u.api_key_hash)) (find_first (λ u. text_eq u.id i) s.users)

-- `get_user_by_username`
unfoldable pub get_user_by_username :
    Text → Accounts → Option (UserInfo × Option Text × Option Text)
unfolding returned
get_user_by_username name s =
    returned (λ u. (info u, u.password_hash, u.api_key_hash))
      (find_first (λ u. text_eq u.username name) s.users)

-- `EXTRACT(EPOCH FROM NOW())::BIGINT`, which rounds to the nearest second, and a half up.
unfoldable pub epoch : ℕ → ℕ
epoch ms = (ms + 500) / 1000

-- The join of `get_user_by_api_key_hash`, under its WHERE clause. The hashes of the keys are unique, so
-- that the order of the rows does not matter.
unfoldable pub joined : Text → ℕ → List UserRow → List KeyRow → Option UserInfo
unfolding or_later
joined h ms users [] = none
joined h ms users (k ∷ ks) =
    let later = joined h ms users ks in
    if text_eq k.key_hash h && is_usable k (epoch ms) then or_later (owner k users) later else later

-- The rows of the users whose legacy hash is `h`.
abbrev pub legacy_rows : Text → List UserRow → List UserRow
legacy_rows h users = select (λ u. same_text u.api_key_hash (some h)) users

-- `get_user_by_api_key_hash`
unfoldable pub get_user_by_api_key_hash :
    (List UserRow → Option UserRow) → Text → ℕ → Accounts → Option UserInfo
unfolding or_later
get_user_by_api_key_hash first h ms s =
    or_later (first (legacy_rows h s.users)) (joined h ms s.users s.api_keys)

-- `update_user_api_key_hash`
unfoldable pub update_user_api_key_hash : Text → Text → Accounts → Accounts
unfolding set_hash
update_user_api_key_hash i h s = record s { users = map (set_hash i h) s.users }

-- `create_api_key`
unfoldable pub create_api_key :
    Text → Text → Text → Option Text → Option ℕ → ℕ → Accounts → Option Accounts
create_api_key key_id user_id key_hash name expires_at ms s =
    let row : KeyRow = record {
      id = key_id;
      user_id = user_id;
      key_hash = key_hash;
      name = name;
      expires_at = expires_at;
      created_at = ms;
      revoked_at = none;
    } in
    if any (λ k. key_clash k row) s.api_keys
    then none
    else if any (λ u. text_eq u.id user_id) s.users
    then some (record s { api_keys = s.api_keys ++ row ∷ [] })
    else none

-- `revoke_api_key`
unfoldable pub revoke_api_key : Text → ℕ → Accounts → Accounts
unfolding revoke
revoke_api_key i ms s = record s { api_keys = map (revoke i ms) s.api_keys }

-- `get_api_key`
unfoldable pub get_api_key : Text → Accounts → Option KeyRow
get_api_key i s = find_first (λ k. text_eq k.id i) s.api_keys

-- `list_api_keys`, with `int(datetime.now().timestamp())`, which truncates.
unfoldable pub list_api_keys : Text → ℕ → Accounts → List ListedKey
list_api_keys user_id ms s =
    map (listed (ms / 1000))
      (newest_first (λ k. k.created_at) [] (select (λ k. text_eq k.user_id user_id) s.api_keys))
