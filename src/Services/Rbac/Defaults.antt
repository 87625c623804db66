-- ===== src/Services/Rbac/Defaults.antt =====
-- What a user with the seeded role "User" may do, by app/core/permissions.py.
use cron_qms.Prelude.{
  any, ℕ, String, ◌≡◌, ◌≢◌, refl, inl, inr, sym, ap, ◌∙◌, Bool, false, ◌&&◌, ◌||◌, Option, none,
  some, List, [], ◌∷◌, first, arith, Option-cases, str_eq, eq_iff,
}
use mathlib.Core.Bool.{false≢true}
use cron_qms.Models.User.{RoleDefinition, User}
use cron_qms.Core.Permissions.{
  Permission, all_permissions, value, has, is_of, role_row, user_has_permission,
}
use cron_qms.Core.Permissions.Resolution.{row-decides}
use cron_qms.Services.Rbac.{
  is_role, new_role, ensure_role, seed_system_roles, sorted, insert_sorted, admin_role_name,
  user_role_name, default_user_permissions,
}
use cron_qms.Services.Rbac.Seeding.{
  first-append_miss, first-append_none, ensure_role_found, ensure_role_new, new_role-is_role,
}

role_row-is_role :
    (roles : List RoleDefinition) (user : User) (o : ℕ)
    → user.organization_id ≡ some o
    → role_row roles user ≡ first (is_role o user.role) roles
unfolding role_row
role_row-is_role [] user o h = refl
role_row-is_role (r ∷ roles) user o h =
    let ih = role_row-is_role roles user o h in
    let same : (is_of user.organization_id r.organization_id && str_eq r.name user.role)
        ≡ is_role o user.role r =
      ground arith in
    ground arith

in_any_order :
    (a b c d : Bool) → (a || (b || (c || (d || false)))) ≡ (c || (d || (b || (a || false))))
in_any_order a b c d = ground arith

admin_is_not_user :
    (id o : ℕ) (ps : List Permission) (d : Option String)
    → is_role o user_role_name (new_role id o admin_role_name ps d) ≡ false
unfolding new_role
admin_is_not_user id o ps d = ground arith

module _ (id id' : ℕ) (roles : List RoleDefinition) (o : ℕ)
    (no_user : first (is_role o user_role_name) roles ≡ none) where
  abbrev user_row : RoleDefinition
  user_row = new_role id' o user_role_name default_user_permissions (some "Basic read-only access.")

  no_user_yet :
      (d : Option String)
      → first
          (is_role o user_role_name)
          (ensure_role id roles o admin_role_name all_permissions d).0
        ≡ none
  no_user_yet d = elim (Option-cases (first (is_role o admin_role_name) roles)) [
    | inl new ↦
        ap (λ (r : List RoleDefinition × RoleDefinition). first (is_role o user_role_name) r.0)
          (ensure_role_new id roles o admin_role_name all_permissions d new)
        ∙ first-append_miss (is_role o user_role_name) roles
            (new_role id o admin_role_name all_permissions d) no_user
            (admin_is_not_user id o all_permissions d)
    | inr (role, h) ↦
        ap (λ (r : List RoleDefinition × RoleDefinition). first (is_role o user_role_name) r.0)
          (ensure_role_found id roles o admin_role_name all_permissions d h)
        ∙ no_user
  ]

  seeded_user : first (is_role o user_role_name) (seed_system_roles id id' roles o) ≡ some user_row
  unfolding seed_system_roles
  seeded_user =
      let d = some "Full access to every part of the system." in
      let r1 = (ensure_role id roles o admin_role_name all_permissions d).0 in
      let about = some "Basic read-only access." in
      let none_yet = no_user_yet d in
      ap (λ (r : List RoleDefinition × RoleDefinition). first (is_role o user_role_name) r.0)
        (ensure_role_new id' r1 o user_role_name default_user_permissions about none_yet)
      ∙ first-append_none (is_role o user_role_name) r1 user_row none_yet
          (new_role-is_role id' r1 o user_role_name default_user_permissions about)

-- After the seeding of an organization that had no role "User", a user of the organization with that
-- role has the default permissions and no others.
pub seeded_user-user_has_permission :
    (id id' : ℕ) (roles : List RoleDefinition) (o : ℕ) (user : User) (p : Permission)
    → first (is_role o user_role_name) roles ≡ none
    → user.organization_id ≡ some o
    → user.role ≡ user_role_name
    → user_has_permission (seed_system_roles id id' roles o) user p ≡ has p default_user_permissions
unfolding has new_role sorted insert_sorted value
seeded_user-user_has_permission id id' roles o user p no_user own is_user =
    let after = seed_system_roles id id' roles o in
    let row : role_row after user ≡ some (user_row id id' roles o no_user) =
      role_row-is_role after user o own
      ∙ ap (λ n. first (is_role o n) after) is_user
      ∙ seeded_user id id' roles o no_user in
    let not_admin : user.role ≢ "Admin" =
      λ h. false≢true ((eq_iff "User" "Admin").1 (sym is_user ∙ h)) in
    let granted : any (λ g. str_eq g (value p)) (user_row id id' roles o no_user).permissions
        ≡ has p default_user_permissions =
      in_any_order (str_eq "alert:read" (value p)) (str_eq "capa:read" (value p))
        (str_eq "dashboard:view" (value p)) (str_eq "event:read" (value p)) in
    row-decides after user p not_admin (user_row id id' roles o no_user) row ∙ granted
