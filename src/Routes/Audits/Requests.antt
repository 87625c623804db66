-- ===== src/Routes/Audits/Requests.antt =====
-- The requests of audits that write.
use cron_qms.Prelude.{ℕ, Result}
use cron_qms.Db.{Db, Env, wrote_to}
use cron_qms.Routes.Audits.{AuditCreate, AuditUpdate, create_audit, update_audit, delete_audit}
use cron_qms.Routes.Audits.Items.{
  ChecklistItemCreate, ChecklistItemUpdate, add_item, update_item, delete_item,
}
use cron_qms.Routes.Audits.Findings.{
  FindingCreate, FindingUpdate, add_finding, update_finding, delete_finding,
}

pub data Request : Type 0 where
  create : AuditCreate → Request
  update : ℕ → AuditUpdate → Request
  delete : ℕ → Request
  ask : ℕ → ChecklistItemCreate → Request
  answer : ℕ → ℕ → ChecklistItemUpdate → Request
  drop_item : ℕ → ℕ → Request
  report : ℕ → FindingCreate → Request
  follow_up : ℕ → ℕ → FindingUpdate → Request
  drop_finding : ℕ → ℕ → Request

unfoldable pub handle : Env → Db → Request → Result Db
unfolding create_audit update_audit delete_audit add_item update_item delete_item add_finding
    update_finding delete_finding
handle env db (create p) = wrote_to (create_audit env db p)
handle env db (update id p) = wrote_to (update_audit env db id p)
handle env db (delete id) = delete_audit env db id
handle env db (ask id p) = wrote_to (add_item env db id p)
handle env db (answer id item_id p) = wrote_to (update_item env db id item_id p)
handle env db (drop_item id item_id) = delete_item env db id item_id
handle env db (report id p) = wrote_to (add_finding env db id p)
handle env db (follow_up id finding_id p) = wrote_to (update_finding env db id finding_id p)
handle env db (drop_finding id finding_id) = delete_finding env db id finding_id
