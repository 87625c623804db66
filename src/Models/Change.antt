-- ===== src/Models/Change.antt =====
-- app/models/change.py
use cron_qms.Prelude.{ℕ, String, Bool, true, false, not, Option, List, [], ◌∷◌, ◌==◌, filter, count}
use cron_qms.Dates.{Date}
use cron_qms.Core.Values.{Value, text, flag, opt_text, opt_num, opt_day}

pub data ChangeType : Type 0 where
  process product equipment document supplier facility other : ChangeType

abbrev pub type_value : ChangeType → String
type_value process = "Process"
type_value product = "Product"
type_value equipment = "Equipment"
type_value document = "Document"
type_value supplier = "Supplier"
type_value facility = "Facility"
type_value other = "Other"

pub data ChangeStatus : Type 0 where
  draft submitted under_review approved rejected implemented closed cancelled : ChangeStatus

abbrev pub status_value : ChangeStatus → String
status_value draft = "Draft"
status_value submitted = "Submitted"
status_value under_review = "Under_Review"
status_value approved = "Approved"
status_value rejected = "Rejected"
status_value implemented = "Implemented"
status_value closed = "Closed"
status_value cancelled = "Cancelled"

pub data RiskLevel : Type 0 where
  low_risk medium_risk high_risk critical_risk : RiskLevel

abbrev pub risk_value : RiskLevel → String
risk_value low_risk = "Low"
risk_value medium_risk = "Medium"
risk_value high_risk = "High"
risk_value critical_risk = "Critical"

pub data ImpactArea : Type 0 where
  quality regulatory safety product_area process_area documentation training : ImpactArea
  equipment_area supplier_area validation customer other_area : ImpactArea

pub data ImpactLevel : Type 0 where
  no_impact low_impact medium_impact high_impact critical_impact : ImpactLevel

pub data ActionStatus : Type 0 where
  open_action action_in_progress closed_action : ActionStatus

abbrev pub action_value : ActionStatus → String
action_value open_action = "Open"
action_value action_in_progress = "In_Progress"
action_value closed_action = "Closed"

-- The impacts and the actions of a change stand in tables of their own, and name it by its id.
pub record ChangeRequest : Type 0 where
  pub id : ℕ
  pub organization_id : ℕ
  pub reference : String
  pub title : String
  pub change_type : ChangeType
  pub status : ChangeStatus
  pub description : Option String
  pub reason : Option String
  pub affected_area : Option String
  pub risk_level : RiskLevel
  pub owner_id : Option ℕ
  pub target_date : Option Date
  pub implementation_date : Option Date
  pub summary : Option String
  pub created_by : ℕ
  pub is_active : Bool

pub record ChangeImpact : Type 0 where
  pub id : ℕ
  pub organization_id : ℕ
  pub change_id : ℕ
  pub area : ImpactArea
  pub impact_level : ImpactLevel
  pub description : Option String
  pub mitigation : Option String
  pub display_order : ℕ

pub record ChangeAction : Type 0 where
  pub id : ℕ
  pub organization_id : ℕ
  pub change_id : ℕ
  pub title : String
  pub description : Option String
  pub status : ActionStatus
  pub owner_id : Option ℕ
  pub due_date : Option Date
  pub capa_id : Option ℕ
  pub created_by : ℕ

-- `ChangeRequest.__audit_fields__` with the values of the columns
unfoldable pub change_fields : ChangeRequest → List (String × Value)
change_fields c =
    ("reference", text c.reference)
    ∷ ("title", text c.title)
    ∷ ("change_type", text (type_value c.change_type))
    ∷ ("status", text (status_value c.status))
    ∷ ("description", opt_text c.description)
    ∷ ("reason", opt_text c.reason)
    ∷ ("affected_area", opt_text c.affected_area)
    ∷ ("risk_level", text (risk_value c.risk_level))
    ∷ ("owner_id", opt_num c.owner_id)
    ∷ ("target_date", opt_day c.target_date)
    ∷ ("implementation_date", opt_day c.implementation_date)
    ∷ ("summary", opt_text c.summary)
    ∷ ("is_active", flag c.is_active)
    ∷ []

-- `ChangeAction.__audit_fields__` with the values of the columns
unfoldable pub action_fields : ChangeAction → List (String × Value)
action_fields a =
    ("title", text a.title)
    ∷ ("description", opt_text a.description)
    ∷ ("status", text (action_value a.status))
    ∷ ("owner_id", opt_num a.owner_id)
    ∷ ("due_date", opt_day a.due_date)
    ∷ ("capa_id", opt_num a.capa_id)
    ∷ []

-- The relationships `change.actions` and `change.impacts`. Nothing that is modelled reads their
-- order.
abbrev pub actions_of : ℕ → List ChangeAction → List ChangeAction
actions_of change_id rows = filter (λ a. a.change_id == change_id) rows

abbrev pub impacts_of : ℕ → List ChangeImpact → List ChangeImpact
impacts_of change_id rows = filter (λ i. i.change_id == change_id) rows

abbrev pub is_closed : ActionStatus → Bool
is_closed closed_action = true
is_closed _ = false

-- `open_actions_count`
unfoldable pub open_actions_count : List ChangeAction → ℕ
open_actions_count actions = count (λ a. not (is_closed a.status)) actions
