-- ===== src/Services/Rbac.antt =====
-- app/services/rbac.py. The rows of `role_permissions` stand in their role; the keys that the
-- database gives to new roles are arguments.
pub mod Seeding
pub mod Defaults
use Prim.Native.String.{compare as compare_text}
use Prim.Native.Nat.{Ordering}
use cron_qms.Prelude.{
  ℕ, String, Bool, true, false, ◌&&◌, Option, none, some, List, [], ◌∷◌, ◌++◌, map, first, ◌==◌,
  str_eq, if◌then◌else◌,
}
use cron_qms.Models.User.{RoleDefinition}
use cron_qms.Core.Permissions.{
  Permission, all_permissions, value, dashboard_view, event_read, capa_read, alert_read,
}

-- `ADMIN_ROLE_NAME`
abbrev pub admin_role_name : String
admin_role_name = "Admin"

-- `USER_ROLE_NAME`
abbrev pub user_role_name : String
user_role_name = "User"

-- `DEFAULT_USER_PERMISSIONS`
abbrev pub default_user_permissions : List Permission
default_user_permissions = dashboard_view ∷ event_read ∷ capa_read ∷ alert_read ∷ []

before : String → String → Bool
before a b = elim (compare_text a b) [ Ordering.gt ↦ false | _ ↦ true ]

unfoldable pub insert_sorted : String → List String → List String
unfolding before
insert_sorted p [] = p ∷ []
insert_sorted p (q ∷ qs) =
    let rest = insert_sorted p qs in if before p q then p ∷ q ∷ qs else q ∷ rest

-- `sorted(permissions)`
unfoldable pub sorted : List String → List String
sorted [] = []
sorted (p ∷ ps) = insert_sorted p (sorted ps)

-- `.filter(RoleDefinition.organization_id == organization_id, RoleDefinition.name == name)`
abbrev pub is_role : ℕ → String → RoleDefinition → Bool
is_role organization_id name role =
    (role.organization_id == organization_id) && str_eq role.name name

unfoldable pub new_role : ℕ → ℕ → String → List Permission → Option String → RoleDefinition
new_role id organization_id name permissions description = record {
  id = id;
  organization_id = organization_id;
  name = name;
  description = description;
  is_system = true;
  permissions = sorted (map value permissions);
}

-- `_ensure_role` of a system role: the new table and the role.
unfoldable pub ensure_role :
    ℕ
    → List RoleDefinition
    → ℕ
    → String
    → List Permission
    → Option String
    → List RoleDefinition × RoleDefinition
ensure_role id roles organization_id name permissions description =
    elim (first (is_role organization_id name) roles) [
      | some role ↦ (roles, role)
      | none ↦
          let role = new_role id organization_id name permissions description in
          (roles ++ role ∷ [], role)
    ]

unfoldable pub seed_system_roles : ℕ → ℕ → List RoleDefinition → ℕ → List RoleDefinition
unfolding ensure_role
seed_system_roles id id' roles organization_id =
    let with_admin =
      ensure_role id roles organization_id admin_role_name all_permissions
        (some "Full access to every part of the system.") in
    (ensure_role id' with_admin.0 organization_id user_role_name default_user_permissions
      (some "Basic read-only access.")).0
