-- ===== src/Routes/Audits.antt =====
-- app/api/routes/audits.py
pub mod Items
pub mod Findings
pub mod Requests
pub mod Effects
pub mod FindingEffects
pub mod ItemEffects
pub mod Links
pub mod WellFormed
pub mod Scope
pub mod Closing
pub mod Orders
use cron_qms.Prelude.{
  ℕ, String, Bool, true, false, ◌&&◌, Option, none, some, ltb, Result, ok, http, raise_if, ◌>>=◌,
  ◌>>◌,
}
use cron_qms.Dates.{Date}
use cron_qms.Models.Audit.{
  AuditType, AuditStatus, Audit, planned, closed, findings_of, open_findings_count,
}
use cron_qms.Core.Permissions.{audit_create, audit_read, audit_update, audit_delete}
use cron_qms.Db.{Db, Env, session_of}
use cron_qms.Routes.Scoped.{get_in_org, save, insert}
use cron_qms.Routes.Tables.More.{audit_table}
use cron_qms.Routes.Access.{
  require, require_organization, Field, assign, assign_required, chosen, asked_for,
}

pub record AuditCreate : Type 0 where
  pub reference : String
  pub title : String
  pub audit_type : AuditType
  pub scope : Option String
  pub standard : Option String
  pub lead_auditor_id : Option ℕ
  pub auditee : Option String
  pub planned_date : Option Date
  pub start_date : Option Date
  pub end_date : Option Date

pub record AuditUpdate : Type 0 where
  pub reference : Field String
  pub title : Field String
  pub audit_type : Field AuditType
  pub status : Field AuditStatus
  pub scope : Field String
  pub standard : Field String
  pub lead_auditor_id : Field ℕ
  pub auditee : Field String
  pub planned_date : Field Date
  pub start_date : Field Date
  pub end_date : Field Date
  pub summary : Field String

-- `_get_audit_in_org`
abbrev pub get_audit_in_org : Env → Db → ℕ → Result Audit
get_audit_in_org = get_in_org audit_table (http 404 "Audit not found")

unfoldable pub new_audit : Env → AuditCreate → ℕ → Audit
new_audit env p organization_id = record {
  id = env.new_id;
  organization_id = organization_id;
  reference = p.reference;
  title = p.title;
  audit_type = p.audit_type;
  status = planned;
  scope = p.scope;
  standard = p.standard;
  lead_auditor_id = p.lead_auditor_id;
  auditee = p.auditee;
  planned_date = p.planned_date;
  start_date = p.start_date;
  end_date = p.end_date;
  summary = none;
  created_by = env.user.id;
  is_active = true;
}

unfoldable pub create_audit : Env → Db → AuditCreate → Result (Db × Audit)
unfolding new_audit
create_audit env db p = do
  require audit_create env db
  organization_id ← require_organization env
  let audit = new_audit env p organization_id
  ok (insert audit_table env (session_of env) db audit, audit)

unfoldable pub get_audit : Env → Db → ℕ → Result Audit
get_audit env db audit_id = do require audit_read env db; get_audit_in_org env db audit_id

abbrev pub is_closing : AuditStatus → Bool
is_closing closed = true
is_closing _ = false

-- `_apply_status`
unfoldable pub apply_status : Db → Audit → AuditStatus → Result Audit
apply_status db audit new_status = do
  raise_if (is_closing new_status && ltb 0 (open_findings_count (findings_of audit.id db.findings)))
      (http 409 "Cannot close an audit with open findings")
  ok (record audit { status = new_status })

abbrev pub apply_asked : Db → Audit → Option AuditStatus → Result Audit
apply_asked db audit none = ok audit
apply_asked db audit (some new_status) = apply_status db audit new_status

abbrev pub retyped : AuditUpdate → Audit → Audit
retyped p audit = record audit { audit_type = chosen p.audit_type audit.audit_type }

-- `_AUDIT_SCALAR_FIELDS`
unfoldable pub rest_updated : AuditUpdate → Audit → Result Audit
rest_updated p audit = do
  reference ← assign_required p.reference audit.reference
  title ← assign_required p.title audit.title
  ok (record audit {
    reference = reference;
    title = title;
    scope = assign p.scope audit.scope;
    standard = assign p.standard audit.standard;
    lead_auditor_id = assign p.lead_auditor_id audit.lead_auditor_id;
    auditee = assign p.auditee audit.auditee;
    planned_date = assign p.planned_date audit.planned_date;
    start_date = assign p.start_date audit.start_date;
    end_date = assign p.end_date audit.end_date;
    summary = assign p.summary audit.summary;
  })

-- The changes that `update_audit` makes to the row
unfoldable pub updated : Db → AuditUpdate → Audit → Result Audit
unfolding rest_updated
updated db p audit = do
  moved ← apply_asked db (retyped p audit) (asked_for p.status)
  rest_updated p moved

unfoldable pub update_audit : Env → Db → ℕ → AuditUpdate → Result (Db × Audit)
update_audit env db audit_id p = do
  require audit_update env db
  audit ← get_audit_in_org env db audit_id
  audit' ← updated db p audit
  ok (save audit_table env (session_of env) db audit audit', audit')

unfoldable pub delete_audit : Env → Db → ℕ → Result Db
delete_audit env db audit_id = do
  require audit_delete env db
  audit ← get_audit_in_org env db audit_id
  ok (save audit_table env (session_of env) db audit (record audit { is_active = false }))
