-- ===== src/Models/History.antt =====
-- app/models/event_history.py: one row of the audit trail for each changed field. The triggers of
-- the database refuse every update and delete of the table, so the only write is an append.
use cron_qms.Prelude.{ℕ, String, Option}

pub record HistoryRow : Type 0 where
  pub entity_type : String
  pub entity_id : ℕ
  pub field : String
  pub old_value : Option String
  pub new_value : Option String
  pub reason : Option String
  pub actor_id : Option ℕ
  pub created_at : ℕ
