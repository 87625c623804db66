-- ===== src/Models/User.antt =====
-- app/models/user.py and app/models/role.py
use cron_qms.Prelude.{ℕ, String, Bool, Option, List}

-- The legacy roles; `User.role` holds a role's name.
pub data Role : Type 0 where
  admin quality_manager investigator approver viewer : Role

abbrev pub role_value : Role → String
role_value admin = "Admin"
role_value quality_manager = "QualityManager"
role_value investigator = "Investigator"
role_value approver = "Approver"
role_value viewer = "Viewer"

-- The columns that the modelled code reads; the e-mail address and the password hash are not kept.
pub record User : Type 0 where
  pub id : ℕ
  pub role : String
  pub organization_id : Option ℕ
  pub is_active : Bool

-- A role of an organization with the permission strings of its `role_permissions` rows.
pub record RoleDefinition : Type 0 where
  pub id : ℕ
  pub organization_id : ℕ
  pub name : String
  pub description : Option String
  pub is_system : Bool
  pub permissions : List String
