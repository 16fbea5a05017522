-- ===== src/Security/Authorization/Access.antt =====
-- What `check_resource_access` decides.
use Prim.Native.String.{String}
use text.Mathlib.Text.{◌==◌}
use unified_ai_orchestrator.Base.{
  ◌≡◌, refl, sym, ◌∙◌, ◌↔◌, Bool-cases, inl, inr, Bool, true, false, Option, none, some, ◌&&◌, ◌||◌,
  if◌then◌else◌, arith,
}
use unified_ai_orchestrator.Base.Dict.{truthy}
use unified_ai_orchestrator.Security.Authorization.{
  Role, Permission, User, same_role, get_user_role, has_permission, granted, is_user, Database,
  check_resource_access, check_project, check_conversation, check_for, by_action, project_exists,
  owner_matches, or_return, require_resource_access,
}

-- The permission that an action on a type of resource stands for.
abbrev pub action_permission : Permission → Permission → Permission → String → Option Permission
action_permission read write delete action =
    if action == "read"
    then some read
    else if action == "write"
    then some write
    else if action == "delete"
    then some delete
    else none

abbrev pub needed : String → String → Option Permission
needed resource_type action =
    if resource_type == "project"
    then action_permission Permission.project_read Permission.project_write
        Permission.project_delete action
    else if resource_type == "conversation"
    then action_permission Permission.chat_read Permission.chat_write Permission.chat_delete action
    else none

abbrev pub permitted : User → Option Permission → Bool
permitted u p = elim p [ none ↦ false | some q ↦ has_permission u q ]

again :
    (b : Bool) (a : Option Bool)
    → or_return (if b then a else none) (or_return a false) ≡ or_return a false
unfolding or_return
again b a = ground arith

by_action-permitted :
    (u : User) (read write delete : Permission) (action : String)
    → or_return (by_action u read write delete action) false
      ≡ permitted u (action_permission read write delete action)
unfolding by_action or_return
by_action-permitted u read write delete action = ground arith

check_project-eq :
    (db : Database) (u : User) (resource_id action : String)
    → check_project db u resource_id action
      ≡ permitted u (
          action_permission Permission.project_read Permission.project_write
            Permission.project_delete action)
unfolding check_project
check_project-eq db u resource_id action =
    again (project_exists (db.indexed_files resource_id)) (
      by_action u Permission.project_read Permission.project_write Permission.project_delete action)
    ∙ by_action-permitted u Permission.project_read Permission.project_write
        Permission.project_delete action

check_conversation-eq :
    (db : Database) (u : User) (user_id resource_id action : String)
    → check_conversation db u user_id resource_id action
      ≡ permitted u (
          action_permission Permission.chat_read Permission.chat_write Permission.chat_delete
            action)
unfolding check_conversation
check_conversation-eq db u user_id resource_id action =
    again (owner_matches (db.context_owner resource_id) user_id)
      (by_action u Permission.chat_read Permission.chat_write Permission.chat_delete action)
    ∙ by_action-permitted u Permission.chat_read Permission.chat_write Permission.chat_delete action

check_for-eq :
    (db : Database) (u : User) (user_id : Option String) (resource_type resource_id action : String)
    → check_for db u user_id resource_type resource_id action
      ≡ (truthy user_id && permitted u (needed resource_type action))
unfolding check_for
check_for-eq db u none resource_type resource_id action = refl
check_for-eq db u (some user_id) resource_type resource_id action =
    elim (Bool-cases (truthy (some user_id))) [
      | inr blank ↦ rw (blank) cc
      | inl present ↦ elim (Bool-cases (resource_type == "project")) [
        | inl project ↦ rw (present, project, check_project-eq db u resource_id action) refl
        | inr other ↦ elim (Bool-cases (resource_type == "conversation")) [
          | inl conversation ↦
              rw
                (
                  present,
                  other,
                  conversation,
                  check_conversation-eq db u user_id resource_id action,
                )
                refl
          | inr unknown ↦ rw (present, other, unknown) refl
        ]
      ]
    ]

-- The decision depends on the user's role and id, the type of the resource and the action alone:
-- an administrator is let through, and anyone else needs an id and the permission of the action.
-- Which resource it is, and what the database says of its owner, changes nothing, whether the
-- query succeeds or raises.
pub check_resource_access-eq :
    (db : Database) (u : User) (resource_type resource_id action : String)
    → check_resource_access db u resource_type resource_id action
      ≡ same_role (get_user_role u) Role.admin
        || (truthy u.user_id && permitted u (needed resource_type action))
unfolding check_resource_access
check_resource_access-eq db u resource_type resource_id action =
    rw (check_for-eq db u u.user_id resource_type resource_id action) (ground arith)

-- The function behind `require_resource_access` answers, with the result `x`, exactly when there is
-- a current user whose dict is not empty, who is an administrator, or has an id and the permission.
pub require_resource_access-granted :
    {A : Type 0} (db : Database) (resource_type action : String) (current : Option User)
    (resource_id : String) (result : A)
    → (require_resource_access db resource_type action current resource_id result ≡ granted result)
      ↔ ((u : User) × (current ≡ some u)
          × (is_user current ≡ true)
          × (same_role (get_user_role u) Role.admin
                || (truthy u.user_id && permitted u (needed resource_type action))
              ≡ true))
unfolding require_resource_access
require_resource_access-granted db resource_type action none resource_id result =
    (λ h. ground arith, λ (u, e, _, _). ground arith)
require_resource_access-granted db resource_type action (some v) resource_id result =
    let eq = check_resource_access-eq db v resource_type resource_id action in
    (λ h. (v, refl, ground arith, sym eq ∙ ground arith), λ (u, e, used, allowed). ground arith)
