-- ===== src/Models/Organization.antt =====
-- app/models/organization.py
use cron_qms.Prelude.{ℕ, String, Option}

-- One option of an organization; the keys of an organization are distinct.
pub record OrgSetting : Type 0 where
  pub organization_id : ℕ
  pub key : String
  pub value : Option String
