-- ===== src/Models/Alert.antt =====
-- app/models/alert.py and app/models/assignee_group.py
use cron_qms.Prelude.{ℕ, String, Bool, true, false, Option, none, some, List, [], ◌∷◌}
use cron_qms.Dates.{Date, date_ltb}
use cron_qms.Core.Values.{Value, text, num, flag, opt_text, opt_day}

pub data AlertType : Type 0 where
  quality safety : AlertType

abbrev pub type_value : AlertType → String
type_value quality = "Quality"
type_value safety = "Safety"

pub data AlertSeverity : Type 0 where
  low medium high critical : AlertSeverity

abbrev pub severity_value : AlertSeverity → String
severity_value low = "Low"
severity_value medium = "Medium"
severity_value high = "High"
severity_value critical = "Critical"

pub data AlertStatus : Type 0 where
  open_alert acknowledged closed_alert : AlertStatus

abbrev pub status_value : AlertStatus → String
status_value open_alert = "Open"
status_value acknowledged = "Acknowledged"
status_value closed_alert = "Closed"

-- A group with the keys of its members
pub record AssigneeGroup : Type 0 where
  pub id : ℕ
  pub organization_id : ℕ
  pub name : String
  pub is_active : Bool
  pub members : List ℕ

-- An alert with the keys of its recipient groups (`alert_recipient_groups`). Its images and its
-- acknowledgements stand in tables of their own.
pub record Alert : Type 0 where
  pub id : ℕ
  pub organization_id : ℕ
  pub event_id : Option ℕ
  pub title : String
  pub alert_type : AlertType
  pub severity : AlertSeverity
  pub status : AlertStatus
  pub affected_product : Option String
  pub affected_lot_batch : Option String
  pub description : Option String
  pub containment_actions : Option String
  pub required_actions : Option String
  pub response_due_date : Option Date
  pub expires_at : Option Date
  pub issued_by : ℕ
  pub is_active : Bool
  pub recipient_groups : List ℕ

pub record AlertImage : Type 0 where
  pub id : ℕ
  pub alert_id : ℕ
  pub position : ℕ
  pub filename : String
  pub content_type : Option String
  pub size_bytes : ℕ
  pub checksum : String
  pub storage_key : String
  pub uploaded_by : ℕ

pub record AlertAcknowledgement : Type 0 where
  pub id : ℕ
  pub alert_id : ℕ
  pub filename : String
  pub content_type : Option String
  pub size_bytes : ℕ
  pub checksum : String
  pub storage_key : String
  pub submitted_by : ℕ
  pub group_id : Option ℕ
  pub note : Option String

pub record Notification : Type 0 where
  pub id : ℕ
  pub organization_id : ℕ
  pub user_id : ℕ
  pub alert_id : Option ℕ
  pub subject : String
  pub body : String
  pub is_read : Bool

-- `Alert.__audit_fields__` with the values of the columns
unfoldable pub alert_fields : Alert → List (String × Value)
alert_fields a =
    ("title", text a.title)
    ∷ ("alert_type", text (type_value a.alert_type))
    ∷ ("severity", text (severity_value a.severity))
    ∷ ("status", text (status_value a.status))
    ∷ ("affected_product", opt_text a.affected_product)
    ∷ ("affected_lot_batch", opt_text a.affected_lot_batch)
    ∷ ("description", opt_text a.description)
    ∷ ("containment_actions", opt_text a.containment_actions)
    ∷ ("required_actions", opt_text a.required_actions)
    ∷ ("response_due_date", opt_day a.response_due_date)
    ∷ ("expires_at", opt_day a.expires_at)
    ∷ ("issued_by", num a.issued_by)
    ∷ ("is_active", flag a.is_active)
    ∷ []

abbrev pub is_open : AlertStatus → Bool
is_open open_alert = true
is_open _ = false

abbrev pub is_closed : AlertStatus → Bool
is_closed closed_alert = true
is_closed _ = false

abbrev passed : Option Date → Date → Bool
passed none today = false
passed (some expiry) today = date_ltb expiry today

-- `Alert.is_expired`, with `date.today()` as an argument
unfoldable pub is_expired : Alert → Date → Bool
unfolding date_ltb
is_expired a today = elim a.status [ closed_alert ↦ false | _ ↦ passed a.expires_at today ]
