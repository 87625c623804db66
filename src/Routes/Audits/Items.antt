-- ===== src/Routes/Audits/Items.antt =====
-- The checklist in app/api/routes/audits.py. Its items are not audited.
use cron_qms.Prelude.{
  ℕ, String, not, Option, none, some, if◌then◌else◌, [], ◌∷◌, ◌++◌, map, filter, overwrite, ◌==◌,
  Result, ok, http, ◌>>=◌, ◌>>◌,
}
use cron_qms.Models.Audit.{ChecklistResult, Audit, AuditChecklistItem, AuditFinding, items_of}
use cron_qms.Core.Permissions.{audit_conduct}
use cron_qms.Db.{Db, Env}
use cron_qms.Routes.Nested.{get_child, next_order}
use cron_qms.Routes.Access.{require, Field, assign, assign_required, chosen}
use cron_qms.Routes.Audits.{get_audit_in_org}

pub record ChecklistItemCreate : Type 0 where
  pub question : String
  pub clause : Option String
  pub result : ChecklistResult
  pub notes : Option String

pub record ChecklistItemUpdate : Type 0 where
  pub question : Field String
  pub clause : Field String
  pub result : Field ChecklistResult
  pub notes : Field String

-- `_get_item_in_audit`
abbrev pub get_item_in_audit : Db → Audit → ℕ → Result AuditChecklistItem
get_item_in_audit db audit item_id =
    get_child (λ i. i.id) (λ i. i.audit_id) (http 404 "Checklist item not found") db.items audit.id
      item_id

unfoldable pub new_item : Env → Db → Audit → ChecklistItemCreate → AuditChecklistItem
new_item env db audit p = record {
  id = env.new_id;
  organization_id = audit.organization_id;
  audit_id = audit.id;
  clause = p.clause;
  question = p.question;
  result = p.result;
  notes = p.notes;
  display_order = next_order (map (λ i. i.display_order) (items_of audit.id db.items));
}

unfoldable pub add_item : Env → Db → ℕ → ChecklistItemCreate → Result (Db × AuditChecklistItem)
add_item env db audit_id p = do
  require audit_conduct env db
  audit ← get_audit_in_org env db audit_id
  let item = new_item env db audit p
  ok (record db { items = db.items ++ item ∷ [] }, item)

unfoldable pub updated_item : ChecklistItemUpdate → AuditChecklistItem → Result AuditChecklistItem
updated_item p item = do
  question ← assign_required p.question item.question
  ok (record item {
    clause = assign p.clause item.clause;
    question = question;
    result = chosen p.result item.result;
    notes = assign p.notes item.notes;
  })

unfoldable pub update_item :
    Env → Db → ℕ → ℕ → ChecklistItemUpdate → Result (Db × AuditChecklistItem)
update_item env db audit_id item_id p = do
  require audit_conduct env db
  audit ← get_audit_in_org env db audit_id
  item ← get_item_in_audit db audit item_id
  item' ← updated_item p item
  ok (record db { items = overwrite (λ i. i.id == item.id) item' db.items }, item')

-- `checklist_item_id` of a finding is declared `ON DELETE SET NULL`.
abbrev pub unlink : ℕ → AuditFinding → AuditFinding
unlink item_id f = elim f.checklist_item_id [
  | none ↦ f
  | some linked ↦ if linked == item_id then record f { checklist_item_id = none } else f
]

unfoldable pub delete_item : Env → Db → ℕ → ℕ → Result Db
delete_item env db audit_id item_id = do
  require audit_conduct env db
  audit ← get_audit_in_org env db audit_id
  item ← get_item_in_audit db audit item_id
  ok (record db {
    items = filter (λ i. not (i.id == item.id)) db.items;
    findings = map (unlink item.id) db.findings;
  })
