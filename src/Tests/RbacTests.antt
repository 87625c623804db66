-- ===== src/Tests/RbacTests.antt =====
-- Seeding the roles of an organization.
use cron_qms.Prelude.{◌≡◌, refl, some, List, [], ◌++◌, first}
use cron_qms.Models.User.{User, RoleDefinition}
use cron_qms.Core.Permissions.{user_has_permission, has, event_read}
use cron_qms.Services.Rbac.{seed_system_roles, is_role, default_user_permissions}
use cron_qms.Services.Rbac.Seeding.{seed_system_roles_lem}
use cron_qms.Services.Rbac.Defaults.{seeded_user-user_has_permission}
use cron_qms.Tests.Fixtures.{stranger}

abbrev member : User
member = record stranger { role = "User" }

seed_system_roles_lem_example :
    ((added : List RoleDefinition) × (seed_system_roles 1 2 [] 7 ≡ [] ++ added))
    × ((role : RoleDefinition) × (first (is_role 7 "Admin") (seed_system_roles 1 2 [] 7)
          ≡ some role))
    × ((role : RoleDefinition) × (first (is_role 7 "User") (seed_system_roles 1 2 [] 7)
          ≡ some role))
    × (seed_system_roles 3 4 (seed_system_roles 1 2 [] 7) 7 ≡ seed_system_roles 1 2 [] 7)
seed_system_roles_lem_example = seed_system_roles_lem 1 2 3 4 [] 7

seeded_user-user_has_permission_example :
    user_has_permission (seed_system_roles 1 2 [] 7) member event_read
    ≡ has event_read default_user_permissions
seeded_user-user_has_permission_example =
    seeded_user-user_has_permission 1 2 [] 7 member event_read refl refl refl
