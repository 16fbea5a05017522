-- ===== src/Security/Authorization/Tests.antt =====
-- Runs of the authorization checks, and the theorems about them at concrete inputs.
use unified_ai_orchestrator.Base.{◌≡◌, refl, true, false, none, some, ◌&&◌, ◌||◌}
use unified_ai_orchestrator.Base.Dict.{truthy}
use unified_ai_orchestrator.Security.Authorization.{
  Role, User, Database, forbidden, same_role, is_user, get_user_role, has_permission, require_role,
  require_permission, check_resource_access, require_resource_access, role_of, get_user_permissions,
  same_permission, role_permissions,
}
use unified_ai_orchestrator.Security.Authorization.Access.{
  needed, permitted, check_resource_access-eq,
}

program : Unit {0}
unfolding same_role is_user get_user_role has_permission require_role require_permission
    check_resource_access require_resource_access role_of get_user_permissions same_permission
    role_permissions
program = tt

abbrev alice : User
alice = record { user_id = some "a1"; username = some "alice"; email = none; role = some "user" }

abbrev root : User
root = record { user_id = none; username = some "root"; email = none; role = some "admin" }

-- The conversation "c9" is another user's.
abbrev db : Database
db = record {
  indexed_files = λ project. none;
  context_owner = λ conversation. some (some (some "b2"));
}

foreign_conversation : check_resource_access db alice "conversation" "c9" "write" ≡ true
unfolding program
foreign_conversation = refl

no_delete : check_resource_access db alice "conversation" "c9" "delete" ≡ false
unfolding program
no_delete = refl

refused : require_resource_access db "project" "delete" (some alice) "p" true ≡ forbidden
unfolding program
refused = refl

check_resource_access-eq_example :
    check_resource_access db alice "conversation" "c9" "write"
    ≡ same_role (get_user_role alice) Role.admin
      || (truthy alice.user_id && permitted alice (needed "conversation" "write"))
check_resource_access-eq_example = check_resource_access-eq db alice "conversation" "c9" "write"
