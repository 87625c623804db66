-- ===== src/Routes/Audits/WellFormed.antt =====
-- The tables of audits, findings and checklist items, as the requests keep them.
use cron_qms.Prelude.{◌≡◌, false, ◌==◌, is_some_of, List, All}
use cron_qms.Models.Audit.{Audit, AuditChecklistItem, AuditFinding}
use cron_qms.Db.{Db, Env}
use cron_qms.Routes.Scoped.Trail.{IsAudited, IsNewKey}
use cron_qms.Routes.Tables.More.{audit_table, finding_table}
use cron_qms.Routes.Tables.Unaudited.{item_table}
use cron_qms.Routes.Nested.Owned.{Owned}
use cron_qms.Routes.Audits.Links.{AreLinked}

-- Findings and items are of the organizations of their audits.
abbrev pub FindingsOwned : List Audit → List AuditFinding → Type 0
FindingsOwned = Owned audit_table (λ (f : AuditFinding). f.audit_id) (λ f. f.organization_id)

abbrev pub ItemsOwned : List Audit → List AuditChecklistItem → Type 0
ItemsOwned = Owned audit_table (λ (i : AuditChecklistItem). i.audit_id) (λ i. i.organization_id)

-- The keys of each table are distinct, the trail shows every audit and every finding as it is,
-- findings and items are of the organizations of their audits, and a finding is of the
-- organization of the item that it names.
pub record IsWellFormed (db : Db) : Type 0 where
  pub audits : IsAudited audit_table db
  pub findings : IsAudited finding_table db
  pub items : IsAudited item_table db
  pub findings_owned : FindingsOwned db.audits db.findings
  pub items_owned : ItemsOwned db.audits db.items
  pub linked : AreLinked db.items db.findings

-- The key of a new audit is new, and no finding or item names it.
pub record IsNewAudit (env : Env) (db : Db) : Type 0 where
  pub new_key : IsNewKey audit_table env db
  pub no_finding : All (λ (f : AuditFinding). (env.new_id == f.audit_id) ≡ false) db.findings
  pub no_item : All (λ (i : AuditChecklistItem). (env.new_id == i.audit_id) ≡ false) db.items

-- The key of a new item is new, and no finding names it.
pub record IsNewItem (env : Env) (db : Db) : Type 0 where
  pub new_key : IsNewKey item_table env db
  pub no_link :
      All (λ (f : AuditFinding). is_some_of env.new_id f.checklist_item_id ≡ false) db.findings
