-- ===== src/Storage/Accounts/Tests.antt =====
-- The tables of users and API keys on concrete rows, and the theorems on them.
use unified_ai_orchestrator.Base.{◌≡◌, refl, none, some, [], ◌∷◌}
use unified_ai_orchestrator.Base.Text.{codes}
use unified_ai_orchestrator.Storage.Accounts.{
  Accounts, KeyRow, UserRow, info, clash, key_clash, create_user, update_user_api_key_hash,
  create_api_key, revoke_api_key, get_user, get_user_by_username, get_user_by_api_key_hash,
  get_api_key, is_current, is_null, is_usable, joined, legacy, owner, list_api_keys, listed,
}
use unified_ai_orchestrator.Storage.Accounts.Unique.{
  IsValid, user_created, hash_updated, key_created, changes,
}
use unified_ai_orchestrator.Storage.Accounts.Users.{new_row, get_user_by_username-create_user}
use unified_ai_orchestrator.Storage.Accounts.Keys.{revoke_api_key-forever}
use unified_ai_orchestrator.Storage.Accounts.Listed.{get_user_by_api_key_hash-listed}

abbrev ann : UserRow
ann = new_row (codes "u1") (codes "ann") (some (codes "a@x")) none (codes "user")

abbrev key : KeyRow
key = record {
  id = codes "k1";
  user_id = codes "u1";
  key_hash = codes "h1";
  name = none;
  expires_at = some 90;
  created_at = 5;
  revoked_at = none;
}

abbrev tables : Accounts
tables = record { users = ann ∷ []; api_keys = key ∷ [] }

empty_tables : Accounts
empty_tables = record { users = []; api_keys = [] }

tables-IsValid : IsValid tables
tables-IsValid = record { users_differ = (tt, tt); keys_differ = (tt, tt) }

empty_tables-IsValid : IsValid empty_tables
unfolding empty_tables
empty_tables-IsValid = record { users_differ = tt; keys_differ = tt }

program : Unit {0}
unfolding clash key_clash create_user update_user_api_key_hash create_api_key revoke_api_key
    get_user get_user_by_username get_user_by_api_key_hash get_api_key is_current is_null is_usable
    joined legacy owner list_api_keys listed
program = tt

made :
    changes
      (user_created (codes "u1") (codes "ann") (some (codes "a@x")) none (codes "user")
        ∷ key_created (codes "k1") (codes "u1") (codes "h1") none (some 90) 5
        ∷ [])
      empty_tables
    ≡ tables
unfolding program empty_tables
made = refl

same_hash : create_api_key (codes "k2") (codes "u1") (codes "h1") none none 6 tables ≡ none
unfolding program
same_hash = refl

in_time : get_user_by_api_key_hash (codes "h1") 89 tables ≡ some (info ann)
unfolding program
in_time = refl

expired : get_user_by_api_key_hash (codes "h1") 90 tables ≡ none
unfolding program
expired = refl

legacy_hash :
    get_user_by_api_key_hash
      (codes "h2")
      500
      (update_user_api_key_hash (codes "u1") (codes "h2") tables)
    ≡ some (info ann)
unfolding program
legacy_hash = refl

-- A second user with the email of the first takes its place.
replaced :
    get_user
      (codes "u1")
      (create_user (codes "u2") (codes "eve") (some (codes "a@x")) none (codes "user") tables)
    ≡ none
unfolding program
replaced = refl

get_user_by_username-create_user_example :
    get_user_by_username
      (codes "ann")
      (create_user (codes "u2") (codes "eve") (some (codes "a@x")) none (codes "user") tables)
    ≡ none
unfolding program
get_user_by_username-create_user_example =
    get_user_by_username-create_user (codes "u2") (codes "eve") (some (codes "a@x")) none
      (codes "user") (codes "ann") tables tables-IsValid

revoke_api_key-forever_example :
    get_user_by_api_key_hash (codes "h1") 20 (
      changes (hash_updated (codes "u1") (codes "h2") ∷ []) (revoke_api_key (codes "k1") 10 tables))
    ≡ none
unfolding program
revoke_api_key-forever_example =
    revoke_api_key-forever (codes "k1") 10 20 (hash_updated (codes "u1") (codes "h2") ∷ []) tables
      {k = key} tables-IsValid refl refl (refl, tt)

get_user_by_api_key_hash-listed_example :
    get_user_by_api_key_hash (codes "h1") 20 tables ≡ some (info ann)
unfolding program
get_user_by_api_key_hash-listed_example =
    get_user_by_api_key_hash-listed (codes "k1") 20 tables {k = key} {u = ann} tables-IsValid refl
      refl refl
