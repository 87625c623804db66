-- ===== src/Services/Rbac/Seeding.antt =====
-- What the seeding of app/services/rbac.py leaves in the table of roles.
use mathlib.Core.List.{append-nil, append_assoc}
use cron_qms.Prelude.{
  ℕ, String, ◌≡◌, refl, inl, inr, sym, ap, ◌∙◌, Bool, true, false, Option, none, some, List, [],
  ◌∷◌, ◌++◌, first, arith, Option-cases, Bool-cases, eq_refl, ==_refl,
}
use cron_qms.Models.User.{RoleDefinition}
use cron_qms.Core.Permissions.{Permission, all_permissions}
use cron_qms.Services.Rbac.{
  is_role, new_role, ensure_role, seed_system_roles, admin_role_name, user_role_name,
  default_user_permissions,
}

-- What is found before rows are added is found after.
first-append :
    (test : RoleDefinition → Bool) (xs ys : List RoleDefinition) {x : RoleDefinition}
    → first test xs ≡ some x
    → first test (xs ++ ys) ≡ some x
first-append test [] ys h = cc
first-append test (x ∷ xs) ys {x = r} h = elim (Bool-cases (test x)) [
  | inl y ↦ let is : x ≡ r = ground arith in rw (y, is) refl
  | inr n ↦ let ih = first-append test xs ys {x = r} (ground arith) in rw n ih
]

pub first-append_miss :
    (test : RoleDefinition → Bool) (xs : List RoleDefinition) (y : RoleDefinition)
    → first test xs ≡ none
    → test y ≡ false
    → first test (xs ++ y ∷ []) ≡ none
first-append_miss test [] y h ty = ground arith
first-append_miss test (x ∷ xs) y h ty = ground (arith, first-append_miss test xs y)

pub first-append_none :
    (test : RoleDefinition → Bool) (xs : List RoleDefinition) (y : RoleDefinition)
    → first test xs ≡ none
    → test y ≡ true
    → first test (xs ++ y ∷ []) ≡ some y
first-append_none test [] y h ty = ground arith
first-append_none test (x ∷ xs) y h ty = ground (arith, first-append_none test xs y)

module _ (id : ℕ) (roles : List RoleDefinition) (o : ℕ) (name : String) (ps : List Permission)
    (d : Option String) where
  pub ensure_role_found :
      {role : RoleDefinition}
      → first (is_role o name) roles ≡ some role
      → ensure_role id roles o name ps d ≡ (roles, role)
  unfolding ensure_role
  ensure_role_found h = rw (h, ensure_role) refl

  pub ensure_role_new :
      first (is_role o name) roles ≡ none
      → ensure_role id roles o name ps d
        ≡ (roles ++ new_role id o name ps d ∷ [], new_role id o name ps d)
  unfolding ensure_role new_role
  ensure_role_new h = rw (h, ensure_role) refl

  pub new_role-is_role : is_role o name (new_role id o name ps d) ≡ true
  unfolding new_role
  new_role-is_role = rw (==_refl o, eq_refl name) refl

  -- The role is there afterwards, and no row that was there is gone or changed.
  pub ensure_role-finds :
      (added : List RoleDefinition) × ((ensure_role id roles o name ps d).0 ≡ roles ++ added)
      × ((role : RoleDefinition) × (first (is_role o name) (ensure_role id roles o name ps d).0
            ≡ some role))
  ensure_role-finds = elim (Option-cases (first (is_role o name) roles)) [
    | inl no_role ↦
        let e = ensure_role_new no_role in
        (
          new_role id o name ps d ∷ [],
          ap (λ r. r.0) e,
          (
            new_role id o name ps d,
            ap (λ r. first (is_role o name) r.0) e
                ∙ first-append_none (is_role o name) roles (new_role id o name ps d) no_role
                    new_role-is_role,
          ),
        )
    | inr (role, h) ↦
        let e = ensure_role_found h in
        (
          [],
          ap (λ r. r.0) e ∙ sym (append-nil roles),
          (role, ap (λ r. first (is_role o name) r.0) e ∙ h),
        )
  ]

-- Seeding an organization keeps every row of the table of roles, gives the organization a role
-- "Admin" and a role "User", and changes nothing when it is done again, whatever keys the database
-- then has for new rows.
pub seed_system_roles_lem :
    (id id' again again' : ℕ) (roles : List RoleDefinition) (o : ℕ)
    → ((added : List RoleDefinition) × (seed_system_roles id id' roles o ≡ roles ++ added))
      × ((role : RoleDefinition) × (first
              (is_role o admin_role_name)
              (seed_system_roles id id' roles o)
            ≡ some role))
      × ((role : RoleDefinition) × (first
              (is_role o user_role_name)
              (seed_system_roles id id' roles o)
            ≡ some role))
      × (seed_system_roles again again' (seed_system_roles id id' roles o) o
          ≡ seed_system_roles id id' roles o)
unfolding seed_system_roles
seed_system_roles_lem id id' again again' roles o =
    let about_admin = some "Full access to every part of the system." in
    let about_user = some "Basic read-only access." in
    let r1 = (ensure_role id roles o admin_role_name all_permissions about_admin).0 in
    let r2 = (ensure_role id' r1 o user_role_name default_user_permissions about_user).0 in
    let (added, e1, (admin_row, f1)) =
      ensure_role-finds id roles o admin_role_name all_permissions about_admin in
    let (more, e2, (user_row, f2)) =
      ensure_role-finds id' r1 o user_role_name default_user_permissions about_user in
    let admin_stays : first (is_role o admin_role_name) r2 ≡ some admin_row =
      ap (first (is_role o admin_role_name)) e2
      ∙ first-append (is_role o admin_role_name) r1 more f1 in
    let found_admin =
      ensure_role_found again r2 o admin_role_name all_permissions about_admin admin_stays in
    let found_user =
      ensure_role_found again' r2 o user_role_name default_user_permissions about_user f2 in
    (
      (added ++ more, e2 ∙ ap (λ r. r ++ more) e1 ∙ append_assoc roles added more),
      (admin_row, admin_stays),
      (user_row, f2),
      ap
            (λ (r : List RoleDefinition × RoleDefinition).
              (ensure_role again' r.0 o user_role_name default_user_permissions about_user).0)
            found_admin
          ∙ ap (λ (r : List RoleDefinition × RoleDefinition). r.0) found_user,
    )
