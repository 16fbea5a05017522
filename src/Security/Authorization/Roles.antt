-- ===== src/Security/Authorization/Roles.antt =====
-- The order of the roles, and the two dependencies that guard a route.
use Prim.Native.String.{String}
use text.Mathlib.TextEquality.{eq_iff}
use unified_ai_orchestrator.Base.{
  Option-cases, inl, inr, ◌≢◌, ap, ◌∙◌, ◌≡◌, ◌↔◌, true, Option, none, some, List, any, arith,
}
use unified_ai_orchestrator.Security.Authorization.{
  Role, Permission, User, same_permission, same_role, role_permissions, role_of, get_user_role,
  get_user_permissions, has_permission, granted, is_user, require_role, require_permission,
  check_user,
}

-- A role permits what a weaker one permits.
abbrev pub Permits : Role → Permission → Type 0
Permits r p = any (same_permission p) (role_permissions r) ≡ true

pub readonly→user : (p : Permission) → Permits Role.readonly p → Permits Role.user p
unfolding role_permissions same_permission
readonly→user p h = ground arith

pub everything→admin : (p : Permission) → Permits Role.admin p
unfolding role_permissions same_permission
everything→admin p = ground arith

is_admin :
    (s : String)
    → (any (same_permission Permission.admin_manage) (role_permissions (role_of s)) ≡ true)
      ↔ (s ≡ "admin")
unfolding role_of role_permissions same_permission
is_admin s = (λ h. (eq_iff s "admin").0 (ground arith), λ e. ground (arith, (eq_iff s "admin").1 e))

user_is_not_admin :
    any (same_permission Permission.admin_manage) (role_permissions (role_of "user")) ≢ true
unfolding role_of role_permissions same_permission
user_is_not_admin h = ground arith

-- A user has the permission to manage exactly when the role of the user is the text "admin": no
-- other text and no missing role gives it.
pub has_permission-manage :
    (u : User) → (has_permission u Permission.admin_manage ≡ true) ↔ (u.role ≡ some "admin")
unfolding has_permission get_user_permissions get_user_role
has_permission-manage u = elim (Option-cases u.role) [
  | inl missing ↦ (λ h. absurd (user_is_not_admin (rw missing at h)), λ e. ground arith)
  | inr (s, given) ↦
      (λ h. given ∙ ap some ((is_admin s).0 (rw given at h)), λ e. grind (arith, given, is_admin s))
]

-- `require_permission` lets a request pass, as the user `u`, exactly when it is made by a current
-- user `u` whose dict is not empty and who has the permission.
pub require_permission-granted :
    (p : Permission) (current : Option User) (u : User)
    → (require_permission p current ≡ granted u)
      ↔ ((current ≡ some u) × (is_user current ≡ true) × (has_permission u p ≡ true))
unfolding require_permission check_user
require_permission-granted p none u = (λ h. ground arith, λ (e, _, _). ground arith)
require_permission-granted p (some v) u =
    (λ h. (ground arith, ground arith, ground arith), λ (e, used, allowed). ground arith)

-- `require_role` lets a request pass, as the user `u`, exactly when it is made by a current user
-- `u` whose dict is not empty and whose role is one of the allowed ones.
pub require_role-granted :
    (allowed_roles : List Role) (current : Option User) (u : User)
    → (require_role allowed_roles current ≡ granted u) ↔ (
        (current ≡ some u)
        × (is_user current ≡ true)
        × (any (same_role (get_user_role u)) allowed_roles ≡ true))
unfolding require_role check_user
require_role-granted allowed_roles none u = (λ h. ground arith, λ (e, _, _). ground arith)
require_role-granted allowed_roles (some v) u =
    (λ h. (ground arith, ground arith, ground arith), λ (e, used, allowed). ground arith)
