-- ===== src/Models/Training.antt =====
-- app/models/training.py
use cron_qms.Prelude.{ℕ, String, Bool, false, Option, none, some, List, [], ◌∷◌, if◌then◌else◌}
use cron_qms.Dates.{Date, date_ltb}
use cron_qms.Core.Values.{Value, text, flag, opt_text, opt_num, opt_day}

pub data TrainingStatus : Type 0 where
  assigned in_progress trained waived : TrainingStatus

abbrev pub status_value : TrainingStatus → String
status_value assigned = "Assigned"
status_value in_progress = "In_Progress"
status_value trained = "Trained"
status_value waived = "Waived"

-- `EXPIRED_STATUS` is a status for display only.
pub data EffectiveStatus : Type 0 where
  stored : TrainingStatus → EffectiveStatus
  expired : EffectiveStatus

-- An operator without a login.
pub record Employee : Type 0 where
  pub id : ℕ
  pub organization_id : ℕ
  pub full_name : String
  pub employee_number : Option String
  pub department : Option String
  pub job_title : Option String
  pub created_by : ℕ
  pub is_active : Bool

pub record TrainingCourse : Type 0 where
  pub id : ℕ
  pub organization_id : ℕ
  pub code : String
  pub title : String
  pub description : Option String
  pub document_id : Option ℕ
  pub recertification_period_months : Option ℕ
  pub created_by : ℕ
  pub is_active : Bool

pub record TrainingRecord : Type 0 where
  pub id : ℕ
  pub organization_id : ℕ
  pub course_id : ℕ
  pub employee_id : Option ℕ
  pub user_id : Option ℕ
  pub status : TrainingStatus
  pub assigned_date : Date
  pub trained_date : Option Date
  pub trained_by : Option ℕ
  pub trainee_acknowledgment : Option String
  pub expiry_date : Option Date
  pub notes : Option String
  pub created_by : ℕ

-- `Employee.__audit_fields__` with the values of the columns
unfoldable pub employee_fields : Employee → List (String × Value)
employee_fields e =
    ("full_name", text e.full_name)
    ∷ ("employee_number", opt_text e.employee_number)
    ∷ ("department", opt_text e.department)
    ∷ ("job_title", opt_text e.job_title)
    ∷ ("is_active", flag e.is_active)
    ∷ []

-- `TrainingCourse.__audit_fields__` with the values of the columns
unfoldable pub course_fields : TrainingCourse → List (String × Value)
course_fields c =
    ("code", text c.code)
    ∷ ("title", text c.title)
    ∷ ("document_id", opt_num c.document_id)
    ∷ ("recertification_period_months", opt_num c.recertification_period_months)
    ∷ ("is_active", flag c.is_active)
    ∷ []

-- `TrainingRecord.__audit_fields__` with the values of the columns
unfoldable pub record_fields : TrainingRecord → List (String × Value)
record_fields r =
    ("status", text (status_value r.status))
    ∷ ("trained_date", opt_day r.trained_date)
    ∷ ("trained_by", opt_num r.trained_by)
    ∷ ("trainee_acknowledgment", opt_text r.trainee_acknowledgment)
    ∷ ("expiry_date", opt_day r.expiry_date)
    ∷ []

abbrev passed : Option Date → Date → Bool
passed none today = false
passed (some expiry) today = date_ltb expiry today

-- `is_expired`, with `date.today()` as an argument
unfoldable pub is_expired : TrainingRecord → Date → Bool
unfolding date_ltb
is_expired r today = elim r.status [ trained ↦ passed r.expiry_date today | _ ↦ false ]

-- `effective_status`
unfoldable pub effective_status : TrainingRecord → Date → EffectiveStatus
unfolding is_expired
effective_status r today = if is_expired r today then expired else stored r.status
