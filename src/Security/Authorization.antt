-- ===== src/Security/Authorization.antt =====
-- python-glue/unified_ai/security/authorization.py.
pub mod Access
pub mod Roles
mod Tests
use Prim.Native.String.{String}
use text.Mathlib.Text.{◌==◌}
use Prim.Native.Nat.{ℕ}
use unified_ai_orchestrator.Base.{
  Bool, true, false, Option, none, some, List, [], ◌∷◌, any, not, ◌||◌, ltb, is_some, if◌then◌else◌,
}
use unified_ai_orchestrator.Base.Dict.{truthy}

pub data Role : Type 0 where
  admin user readonly : Role

pub data Permission : Type 0 where
  chat_read chat_write chat_delete : Permission
  admin_manage admin_users admin_config : Permission
  project_read project_write project_delete : Permission

unfoldable pub same_permission : Permission → Permission → Bool
same_permission Permission.chat_read Permission.chat_read = true
same_permission Permission.chat_write Permission.chat_write = true
same_permission Permission.chat_delete Permission.chat_delete = true
same_permission Permission.admin_manage Permission.admin_manage = true
same_permission Permission.admin_users Permission.admin_users = true
same_permission Permission.admin_config Permission.admin_config = true
same_permission Permission.project_read Permission.project_read = true
same_permission Permission.project_write Permission.project_write = true
same_permission Permission.project_delete Permission.project_delete = true
same_permission p q = false

unfoldable pub same_role : Role → Role → Bool
same_role Role.admin Role.admin = true
same_role Role.user Role.user = true
same_role Role.readonly Role.readonly = true
same_role r s = false

-- `ROLE_PERMISSIONS`
unfoldable pub role_permissions : Role → List Permission
role_permissions Role.admin =
    Permission.chat_read ∷ Permission.chat_write ∷ Permission.chat_delete ∷ Permission.admin_manage
    ∷ Permission.admin_users ∷ Permission.admin_config ∷ Permission.project_read
    ∷ Permission.project_write ∷ Permission.project_delete ∷ []
role_permissions Role.user =
    Permission.chat_read ∷ Permission.chat_write ∷ Permission.project_read
    ∷ Permission.project_write ∷ []
role_permissions Role.readonly = Permission.chat_read ∷ Permission.project_read ∷ []

-- The dict of a user, by the keys that the code reads.
pub record User : Type 0 where
  pub user_id : Option String
  pub username : Option String
  pub email : Option String
  pub role : Option String

-- `Role(role_str)`, and `Role.USER` on its `ValueError`.
unfoldable pub role_of : String → Role
role_of s =
    if s == "admin"
    then Role.admin
    else if s == "user"
    then Role.user
    else if s == "readonly"
    then Role.readonly
    else Role.user

-- `get_user_role`
unfoldable pub get_user_role : User → Role
get_user_role u = elim u.role [ none ↦ role_of "user" | some s ↦ role_of s ]

-- `get_user_permissions`
unfoldable pub get_user_permissions : User → List Permission
get_user_permissions u = role_permissions (get_user_role u)

-- `has_permission`
unfoldable pub has_permission : User → Permission → Bool
has_permission u p = any (same_permission p) (get_user_permissions u)

-- What a dependency answers: the user, or an HTTP error.
pub data Answer (A : Type 0) : Type 0 where
  granted : A → Answer A
  unauthorized : Answer A
  forbidden : Answer A

-- `if not user` fails on `None` and on a dict without entries.
unfoldable pub is_user : Option User → Bool
is_user none = false
is_user (some u) = is_some u.user_id || is_some u.username || is_some u.email || is_some u.role

check_user : (User → Bool) → Option User → Answer User
check_user allowed none = unauthorized
check_user allowed (some u) =
    if is_user (some u) then (if allowed u then granted u else forbidden) else unauthorized

-- `require_role`, on the current user.
unfoldable pub require_role : List Role → Option User → Answer User
unfolding check_user
require_role allowed_roles current =
    check_user (λ u. any (same_role (get_user_role u)) allowed_roles) current

-- `require_permission`, on the current user.
unfoldable pub require_permission : Permission → Option User → Answer User
unfolding check_user
require_permission p current = check_user (λ u. has_permission u p) current

-- The queries of `check_resource_access`, `none` where the database raises: how many indexed files
-- a project has, and the row of a conversation with the owner that it names.
pub record Database : Type 0 where
  pub indexed_files : String → Option ℕ
  pub context_owner : String → Option (Option (Option String))

-- The checks of the three actions; `none` is to fall through.
by_action : User → Permission → Permission → Permission → String → Option Bool
by_action u read write delete action =
    if action == "read"
    then some (has_permission u read)
    else if action == "write"
    then some (has_permission u write)
    else if action == "delete"
    then some (has_permission u delete)
    else none

or_return : Option Bool → Bool → Bool
or_return none b = b
or_return (some a) b = a

-- The part in `try`: whether the project exists, whether the conversation may be the user's.
project_exists : Option ℕ → Bool
project_exists none = false
project_exists (some n) = ltb 0 n

owner_matches : Option (Option (Option String)) → String → Bool
owner_matches none user_id = false
owner_matches (some none) user_id = false
owner_matches (some (some none)) user_id = true
owner_matches (some (some (some owner))) user_id = owner == user_id

check_project : Database → User → String → String → Bool
check_project db u resource_id action =
    let checked =
      by_action u Permission.project_read Permission.project_write Permission.project_delete
        action in
    or_return (if project_exists (db.indexed_files resource_id) then checked else none)
      (or_return checked false)

check_conversation : Database → User → String → String → String → Bool
check_conversation db u user_id resource_id action =
    let checked =
      by_action u Permission.chat_read Permission.chat_write Permission.chat_delete action in
    or_return (if owner_matches (db.context_owner resource_id) user_id then checked else none)
      (or_return checked false)

check_for : Database → User → Option String → String → String → String → Bool
check_for db u none resource_type resource_id action = false
check_for db u (some user_id) resource_type resource_id action =
    if truthy (some user_id)
    then (if resource_type == "project"
        then check_project db u resource_id action
        else if resource_type == "conversation"
        then check_conversation db u user_id resource_id action
        else false)
    else false

-- `check_resource_access`
unfoldable pub check_resource_access : Database → User → String → String → String → Bool
unfolding by_action or_return project_exists owner_matches check_project check_conversation
    check_for
check_resource_access db u resource_type resource_id action =
    if same_role (get_user_role u) Role.admin
    then true
    else check_for db u u.user_id resource_type resource_id action

-- `require_resource_access`: the wrapped function runs only behind the check.
unfoldable pub require_resource_access :
    {A : Type 0} → Database → String → String → Option User → String → A → Answer A
require_resource_access db resource_type action none resource_id result = unauthorized
require_resource_access db resource_type action (some u) resource_id result =
    if is_user (some u)
    then (if check_resource_access db u resource_type resource_id action
        then granted result
        else forbidden)
    else unauthorized
