-- ===== src/Routes/Audits/Findings.antt =====
-- The findings in app/api/routes/audits.py.
use cron_qms.Prelude.{
  ℕ, String, ◌&&◌, Option, none, some, first, ◌==◌, Result, ok, http, or_raise, ◌>>=◌, ◌>>◌,
}
use cron_qms.Dates.{Date}
use cron_qms.Models.Audit.{FindingSeverity, FindingStatus, Audit, AuditFinding, open_finding}
use cron_qms.Core.Permissions.{audit_conduct}
use cron_qms.Db.{Db, Env, session_of}
use cron_qms.Routes.Scoped.{save, insert, remove}
use cron_qms.Routes.Tables.More.{finding_table}
use cron_qms.Routes.Nested.{get_child}
use cron_qms.Routes.Access.{require, Field, unset, sent, assign, assign_required, chosen}
use cron_qms.Routes.Audits.{get_audit_in_org}
use cron_qms.Routes.Audits.Items.{get_item_in_audit}

pub record FindingCreate : Type 0 where
  pub title : String
  pub description : Option String
  pub severity : FindingSeverity
  pub owner_id : Option ℕ
  pub due_date : Option Date
  pub checklist_item_id : Option ℕ

pub record FindingUpdate : Type 0 where
  pub title : Field String
  pub description : Field String
  pub severity : Field FindingSeverity
  pub status : Field FindingStatus
  pub owner_id : Field ℕ
  pub due_date : Field Date
  pub capa_id : Field ℕ

-- `_get_finding_in_audit`
abbrev pub get_finding_in_audit : Db → Audit → ℕ → Result AuditFinding
get_finding_in_audit db audit finding_id =
    get_child (λ f. f.id) (λ f. f.audit_id) (http 404 "Finding not found") db.findings audit.id
      finding_id

unfoldable pub new_finding : Env → Audit → FindingCreate → AuditFinding
new_finding env audit p = record {
  id = env.new_id;
  organization_id = audit.organization_id;
  audit_id = audit.id;
  checklist_item_id = p.checklist_item_id;
  title = p.title;
  description = p.description;
  severity = p.severity;
  status = open_finding;
  owner_id = p.owner_id;
  due_date = p.due_date;
  capa_id = none;
  created_by = env.user.id;
}

-- "Ensure the referenced item belongs to this audit."
abbrev pub item_known : Db → Audit → Option ℕ → Result (Unit {0})
item_known db audit none = ok tt
item_known db audit (some item_id) = get_item_in_audit db audit item_id >>= λ _. ok tt

unfoldable pub add_finding : Env → Db → ℕ → FindingCreate → Result (Db × AuditFinding)
add_finding env db audit_id p = do
  require audit_conduct env db
  audit ← get_audit_in_org env db audit_id
  item_known db audit p.checklist_item_id
  let finding = new_finding env audit p
  ok (insert finding_table env (session_of env) db finding, finding)

-- `_resolve_capa`
unfoldable pub resolve_capa : Db → Option ℕ → Audit → Result (Option ℕ)
resolve_capa db none audit = ok none
resolve_capa db (some capa_id) audit = do
  capa ←
      or_raise
        (first (λ c. c.id == capa_id && (c.organization_id == audit.organization_id && c.is_active))
          db.capas)
        (http 400 "CAPA not found in your organization")
  ok (some capa.id)

unfoldable pub linked : Db → Field ℕ → Audit → Option ℕ → Result (Option ℕ)
linked db unset audit old = ok old
linked db (sent capa_id) audit old = resolve_capa db capa_id audit

-- The changes that `update_finding` makes to the row
unfoldable pub updated_finding : Db → FindingUpdate → Audit → AuditFinding → Result AuditFinding
updated_finding db p audit finding = do
  capa_id ← linked db p.capa_id audit finding.capa_id
  title ← assign_required p.title finding.title
  ok (record finding {
    title = title;
    description = assign p.description finding.description;
    severity = chosen p.severity finding.severity;
    status = chosen p.status finding.status;
    owner_id = assign p.owner_id finding.owner_id;
    due_date = assign p.due_date finding.due_date;
    capa_id = capa_id;
  })

unfoldable pub update_finding : Env → Db → ℕ → ℕ → FindingUpdate → Result (Db × AuditFinding)
update_finding env db audit_id finding_id p = do
  require audit_conduct env db
  audit ← get_audit_in_org env db audit_id
  finding ← get_finding_in_audit db audit finding_id
  finding' ← updated_finding db p audit finding
  ok (save finding_table env (session_of env) db finding finding', finding')

unfoldable pub delete_finding : Env → Db → ℕ → ℕ → Result Db
delete_finding env db audit_id finding_id = do
  require audit_conduct env db
  audit ← get_audit_in_org env db audit_id
  finding ← get_finding_in_audit db audit finding_id
  ok (remove finding_table env (session_of env) db finding)
