-- ===== src/Routes/Changes/Requests.antt =====
-- The requests of change control that write.
use cron_qms.Prelude.{ℕ, Result}
use cron_qms.Db.{Db, Env, wrote_to}
use cron_qms.Routes.Changes.{
  ChangeRequestCreate, ChangeRequestUpdate, create_change, update_change, delete_change,
}
use cron_qms.Routes.Changes.Impacts.{
  ImpactCreate, ImpactUpdate, add_impact, update_impact, delete_impact,
}
use cron_qms.Routes.Changes.Actions.{
  ActionCreate, ActionUpdate, add_action, update_action, delete_action,
}

pub data Request : Type 0 where
  create : ChangeRequestCreate → Request
  update : ℕ → ChangeRequestUpdate → Request
  delete : ℕ → Request
  assess : ℕ → ImpactCreate → Request
  reassess : ℕ → ℕ → ImpactUpdate → Request
  drop_impact : ℕ → ℕ → Request
  plan : ℕ → ActionCreate → Request
  progress : ℕ → ℕ → ActionUpdate → Request
  drop_action : ℕ → ℕ → Request

unfoldable pub handle : Env → Db → Request → Result Db
unfolding create_change update_change delete_change add_impact update_impact delete_impact
    add_action update_action delete_action
handle env db (create p) = wrote_to (create_change env db p)
handle env db (update id p) = wrote_to (update_change env db id p)
handle env db (delete id) = delete_change env db id
handle env db (assess id p) = wrote_to (add_impact env db id p)
handle env db (reassess id impact_id p) = wrote_to (update_impact env db id impact_id p)
handle env db (drop_impact id impact_id) = delete_impact env db id impact_id
handle env db (plan id p) = wrote_to (add_action env db id p)
handle env db (progress id action_id p) = wrote_to (update_action env db id action_id p)
handle env db (drop_action id action_id) = delete_action env db id action_id
