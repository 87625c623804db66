-- ===== src/Tests/PermissionTests.antt =====
-- Permissions in a small organization.
use cron_qms.Prelude.{◌≡◌, ◌≢◌, refl, true, false, none, [], ◌∷◌, eq_iff}
use cron_qms.Models.User.{RoleDefinition}
use cron_qms.Core.Permissions.{user_has_permission, value, role_row, event_read}
use cron_qms.Core.Permissions.Resolution.{row-decides}
use mathlib.Core.Bool.{false≢true}
use cron_qms.Tests.Fixtures.{stranger}

-- The roles of the organization: one, which grants a permission and a text that is none.
abbrev clerk : RoleDefinition
clerk = record {
  id = 1;
  organization_id = 7;
  name = "Nobody";
  description = none;
  is_system = false;
  permissions = "event:read" ∷ "event:fly" ∷ [];
}

not_admin : stranger.role ≢ "Admin"
not_admin h = false≢true ((eq_iff "Nobody" "Admin").1 h)

row-decides_example : user_has_permission (clerk ∷ []) stranger event_read ≡ true
unfolding value
row-decides_example =
    row-decides (clerk ∷ []) stranger event_read not_admin clerk (unfold role_row in refl)
