-- ===== src/Models/Capa.antt =====
-- app/models/capa.py
use cron_qms.Prelude.{ℕ, String, Bool, Option, List, [], ◌∷◌}
use cron_qms.Dates.{Date}
use cron_qms.Core.Values.{Value, text, flag, opt_text, opt_num, opt_day}

pub data CapaStatus : Type 0 where
  draft investigation action_plan implementation effectiveness_check : CapaStatus
  closed failed_effectiveness cancelled : CapaStatus

abbrev pub status_value : CapaStatus → String
status_value draft = "Draft"
status_value investigation = "Investigation"
status_value action_plan = "Action_Plan"
status_value implementation = "Implementation"
status_value effectiveness_check = "Effectiveness_Check"
status_value closed = "Closed"
status_value failed_effectiveness = "Failed_Effectiveness"
status_value cancelled = "Cancelled"

pub data VerificationOutcome : Type 0 where
  pending effective ineffective : VerificationOutcome

abbrev pub outcome_value : VerificationOutcome → String
outcome_value pending = "Pending"
outcome_value effective = "Effective"
outcome_value ineffective = "Ineffective"

-- The linked events are kept by their ids, the rows of `capa_events`.
pub record Capa : Type 0 where
  pub id : ℕ
  pub organization_id : ℕ
  pub title : String
  pub status : CapaStatus
  pub initiating_cause : Option String
  pub containment_actions : Option String
  pub root_cause : Option String
  pub root_cause_category : Option String
  pub rca_method : Option String
  pub corrective_action : Option String
  pub preventive_action : Option String
  pub owner_id : Option ℕ
  pub due_date : Option Date
  pub verification_date : Option Date
  pub verification_outcome : VerificationOutcome
  pub verified_by : Option ℕ
  pub created_by : ℕ
  pub is_active : Bool
  pub event_ids : List ℕ

-- `__audit_fields__` with the values of the columns
unfoldable pub audit_fields : Capa → List (String × Value)
audit_fields c =
    ("title", text c.title)
    ∷ ("status", text (status_value c.status))
    ∷ ("initiating_cause", opt_text c.initiating_cause)
    ∷ ("containment_actions", opt_text c.containment_actions)
    ∷ ("root_cause", opt_text c.root_cause)
    ∷ ("root_cause_category", opt_text c.root_cause_category)
    ∷ ("rca_method", opt_text c.rca_method)
    ∷ ("corrective_action", opt_text c.corrective_action)
    ∷ ("preventive_action", opt_text c.preventive_action)
    ∷ ("owner_id", opt_num c.owner_id)
    ∷ ("due_date", opt_day c.due_date)
    ∷ ("verification_date", opt_day c.verification_date)
    ∷ ("verification_outcome", text (outcome_value c.verification_outcome))
    ∷ ("verified_by", opt_num c.verified_by)
    ∷ ("is_active", flag c.is_active)
    ∷ []
