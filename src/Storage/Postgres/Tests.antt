-- ===== src/Storage/Postgres/Tests.antt =====
-- The back end of PostgreSQL on concrete rows, beside that of SQLite.
use unified_ai_orchestrator.Base.{◌≡◌, refl, Option, none, some, List, [], ◌∷◌, map, arith}
use unified_ai_orchestrator.Base.Text.{Text, codes}
use unified_ai_orchestrator.Storage.Accounts
use unified_ai_orchestrator.Storage.Accounts.{UserRow, UserInfo, info}
use unified_ai_orchestrator.Storage.Accounts.Users.{new_row}
use unified_ai_orchestrator.Storage.Accounts.Unique.{Change, user_created, key_created, changes}
use unified_ai_orchestrator.Storage.Postgres
use unified_ai_orchestrator.Storage.Postgres.Agree.{
  in_seconds, at_seconds, IsFirst, attempts, attempts-agree, get_user_by_api_key_hash-agree,
}

abbrev empty : Accounts.Accounts
empty = record { users = []; api_keys = [] }

abbrev ann : Change
ann = user_created (codes "u1") (codes "ann") (some (codes "a@x")) none (codes "user")

abbrev key : Change
key = key_created (codes "k1") (codes "u1") (codes "h1") none (some 100) 5700

abbrev with_ann : Accounts.Accounts
with_ann = record {
  users = new_row (codes "u1") (codes "ann") (some (codes "a@x")) none (codes "user") ∷ [];
  api_keys = [];
}

program : Unit {0}
unfolding Postgres.taken Postgres.create_user Postgres.get_user Postgres.get_user_by_username
    Postgres.epoch Postgres.joined Postgres.get_user_by_api_key_hash
    Postgres.update_user_api_key_hash Postgres.create_api_key Postgres.revoke_api_key
    Postgres.get_api_key Postgres.list_api_keys Accounts.returned Accounts.or_later
    Accounts.set_hash Accounts.revoke Accounts.create_user Accounts.clash Accounts.get_user
    Accounts.key_clash Accounts.create_api_key Accounts.is_usable Accounts.is_current
    Accounts.is_null Accounts.owner Accounts.update_user_api_key_hash Accounts.joined
    Accounts.legacy Accounts.get_user_by_api_key_hash
program = tt

-- A key of a user that is not there: SQLite takes it, PostgreSQL does not.
no_owner : attempts (key ∷ []) empty ≡ none
unfolding program
no_owner = refl

-- An email that is taken: SQLite deletes the other user, PostgreSQL raises.
email_taken :
    Postgres.create_user
      (codes "u2")
      (codes "eve")
      (some (codes "a@x"))
      none
      (codes "user")
      with_ann
    ≡ none
unfolding program
email_taken = refl

abbrev hashed : Accounts.Accounts
hashed = Accounts.update_user_api_key_hash (codes "u1") (codes "h") with_ann

abbrev again_in : Option Accounts.Accounts → Option (UserInfo × Option Text)
again_in none = none
again_in (some s) = Postgres.get_user (codes "u1") s

-- A user that is created again keeps the legacy key in PostgreSQL only.
created_again :
    again_in (Postgres.create_user (codes "u1") (codes "ann") none none (codes "user") hashed)
    ≡ some (info (new_row (codes "u1") (codes "ann") none none (codes "user")), some (codes "h"))
unfolding program
created_again = refl

created_again_sqlite :
    Accounts.get_user
      (codes "u1")
      (Accounts.create_user (codes "u1") (codes "ann") none none (codes "user") hashed)
    ≡ some (info (new_row (codes "u1") (codes "ann") none none (codes "user")), none)
unfolding program
created_again_sqlite = refl

abbrev both_tables : Accounts.Accounts
both_tables = record {
  users = with_ann.users;
  api_keys =
      record {
        id = codes "k1";
        user_id = codes "u1";
        key_hash = codes "h1";
        name = none;
        expires_at = some 100;
        created_at = 5700;
        revoked_at = none;
      }
      ∷ [];
}

attempts-agree_example :
    changes (map at_seconds (ann ∷ key ∷ [])) (in_seconds empty) ≡ in_seconds both_tables
unfolding program
attempts-agree_example =
    attempts-agree (ann ∷ key ∷ []) empty {t = both_tables} (refl, (λ t went. (tt, λ t went. tt)))
      refl

abbrev first : List UserRow → Option UserRow
first [] = none
first (u ∷ us) = some u

first-IsFirst : IsFirst first
first-IsFirst = record { first-nil = refl; first-one = λ u. refl }

-- At 99.7 seconds a key that expires at 100 has expired in PostgreSQL, and not in SQLite.
expired : Postgres.get_user_by_api_key_hash first (codes "h1") 99700 both_tables ≡ none
unfolding program
expired = refl

not_expired :
    Accounts.get_user_by_api_key_hash (codes "h1") 99 (in_seconds both_tables)
    ≡ some (info (new_row (codes "u1") (codes "ann") (some (codes "a@x")) none (codes "user")))
unfolding program
not_expired = refl

get_user_by_api_key_hash-agree_example :
    Postgres.get_user_by_api_key_hash first (codes "h1") 98700 both_tables
    ≡ Accounts.get_user_by_api_key_hash (codes "h1") 99 (in_seconds both_tables)
unfolding program
get_user_by_api_key_hash-agree_example =
    get_user_by_api_key_hash-agree first (codes "h1") 98700 both_tables first-IsFirst (omega arith)
