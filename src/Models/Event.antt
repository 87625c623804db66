-- ===== src/Models/Event.antt =====
-- app/models/event.py
use cron_qms.Prelude.{ℕ, ◌-◌, ◌/◌, String, Bool, true, false, Option, none, some, List, [], ◌∷◌}
use cron_qms.Dates.{Date, date_ltb}
use cron_qms.Core.Values.{Value, text, num, flag, opt_text, opt_num, opt_day}

-- `opened` is EventStatus.OPEN.
pub data EventStatus : Type 0 where
  opened in_progress resolved closed : EventStatus

abbrev pub status_value : EventStatus → String
status_value opened = "Open"
status_value in_progress = "In_Progress"
status_value resolved = "Resolved"
status_value closed = "Closed"

abbrev pub is_closed : EventStatus → Bool
is_closed closed = true
is_closed _ = false

pub data EventPriority : Type 0 where
  low medium high critical : EventPriority

abbrev pub priority_value : EventPriority → String
priority_value low = "Low"
priority_value medium = "Medium"
priority_value high = "High"
priority_value critical = "Critical"

pub data EventType : Type 0 where
  defect capa other : EventType

abbrev pub type_value : EventType → String
type_value defect = "Defect"
type_value capa = "CAPA"
type_value other = "Other"

pub record Event : Type 0 where
  pub id : ℕ
  pub title : String
  pub description : Option String
  pub event_type : EventType
  pub status : EventStatus
  pub priority : String
  pub assigned_to : Option ℕ
  pub assigned_group_id : Option ℕ
  pub organization_id : ℕ
  pub site_id : Option ℕ
  pub target_close_date : Option Date
  pub product_part_number : Option String
  pub lot_batch : Option String
  pub supplier : Option String
  pub work_order : Option String
  pub machine : Option String
  pub is_active : Bool
  pub reported_by : ℕ
  pub closed_by : Option ℕ
  pub closed_at : Option ℕ
  pub created_at : Option ℕ

-- `__audit_fields__` with the values of the columns
unfoldable pub audit_fields : Event → List (String × Value)
audit_fields e =
    ("title", text e.title)
    ∷ ("description", opt_text e.description)
    ∷ ("event_type", text (type_value e.event_type))
    ∷ ("status", text (status_value e.status))
    ∷ ("priority", text e.priority)
    ∷ ("assigned_to", opt_num e.assigned_to)
    ∷ ("assigned_group_id", opt_num e.assigned_group_id)
    ∷ ("site_id", opt_num e.site_id)
    ∷ ("organization_id", num e.organization_id)
    ∷ ("reported_by", num e.reported_by)
    ∷ ("target_close_date", opt_day e.target_close_date)
    ∷ ("product_part_number", opt_text e.product_part_number)
    ∷ ("lot_batch", opt_text e.lot_batch)
    ∷ ("supplier", opt_text e.supplier)
    ∷ ("work_order", opt_text e.work_order)
    ∷ ("machine", opt_text e.machine)
    ∷ ("closed_by", opt_num e.closed_by)
    ∷ ("is_active", flag e.is_active)
    ∷ []

-- `is_overdue`, with `date.today()` as an argument
unfoldable pub is_overdue : Event → Date → Bool
unfolding date_ltb
is_overdue e today = elim e.target_close_date [
  | none ↦ false
  | some target ↦ elim e.status [ closed ↦ false | _ ↦ date_ltb target today ]
]

abbrev microseconds_per_day : ℕ
microseconds_per_day = 86_400_000_000

-- `days_open`; a clock that stands before `created_at` gives 0 here and a negative count there.
unfoldable pub days_open : Event → ℕ → ℕ
days_open e now = elim e.created_at [ none ↦ 0 | some t ↦ (now - t) / microseconds_per_day ]
