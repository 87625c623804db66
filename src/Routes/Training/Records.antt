-- ===== src/Routes/Training/Records.antt =====
-- The training records in app/api/routes/training.py.
use cron_qms.Prelude.{
  ℕ, String, Bool, true, false, not, Option, none, some, is_none, first, ◌==◌, Result, ok, http,
  crash, raise_if, or_raise, ◌>>=◌, ◌>>◌,
}
use cron_qms.Dates.{Date}
use cron_qms.Text.{strip}
use cron_qms.Models.User.{User}
use cron_qms.Models.Training.{TrainingCourse, TrainingRecord, TrainingStatus, assigned}
use cron_qms.Core.Permissions.{training_update, training_certify, training_delete, is_of}
use cron_qms.Db.{Db, Env, session_of}
use cron_qms.Services.TrainingWorkflow
use cron_qms.Routes.Scoped.{get_in_org, save, insert, remove}
use cron_qms.Routes.Tables.More.{record_table}
use cron_qms.Routes.Access.{require, require_organization, Field, assign, chosen}
use cron_qms.Routes.Training.Employees.{get_employee_in_org}
use cron_qms.Routes.Training.Courses.{get_course_in_org}

pub record TrainingRecordCreate : Type 0 where
  pub course_id : ℕ
  pub employee_id : Option ℕ
  pub user_id : Option ℕ
  pub notes : Option String

pub record TrainingRecordUpdate : Type 0 where
  pub status : Field TrainingStatus
  pub notes : Field String

pub record TrainingRecordCertify : Type 0 where
  pub trainee_acknowledgment : String
  pub trained_date : Option Date

-- `==` on two truth values
abbrev pub same_truth : Bool → Bool → Bool
same_truth true b = b
same_truth false b = not b

-- `_exactly_one_trainee`: the validator of the payload runs after the check of the permission.
unfoldable pub exactly_one_trainee : TrainingRecordCreate → Result (Unit {0})
exactly_one_trainee p =
    raise_if (same_truth (is_none p.employee_id) (is_none p.user_id))
      (http 422 "Provide exactly one of employee_id or user_id")

-- `_get_record_in_org`
abbrev pub get_record_in_org : Env → Db → ℕ → Result TrainingRecord
get_record_in_org = get_in_org record_table (http 404 "Training record not found")

-- Two `organization_id` columns that may be null are compared by `!=`.
abbrev pub same_org : Option ℕ → Option ℕ → Bool
same_org none none = true
same_org (some o) own = is_of own o
same_org _ _ = false

abbrev pub known_employee : Env → Db → Option ℕ → Result (Unit {0})
known_employee env db none = ok tt
known_employee env db (some employee_id) = get_employee_in_org env db employee_id >>= λ _. ok tt

abbrev pub known_user : Env → Db → Option ℕ → Result (Unit {0})
known_user env db none = ok tt
known_user env db (some user_id) = do
  trainee ←
      or_raise (first (λ (u : User). u.id == user_id) db.users)
        (http 400 "User not found in your organization")
  raise_if (not (same_org trainee.organization_id env.user.organization_id))
      (http 400 "User not found in your organization")

-- `_validate_trainee`
unfoldable pub validate_trainee : Env → Db → Option ℕ → Option ℕ → Result (Unit {0})
validate_trainee env db employee_id user_id = do
  known_employee env db employee_id
  known_user env db user_id

unfoldable pub new_record : Env → TrainingRecordCreate → ℕ → TrainingCourse → TrainingRecord
new_record env p organization_id course = record {
  id = env.new_id;
  organization_id = organization_id;
  course_id = course.id;
  employee_id = p.employee_id;
  user_id = p.user_id;
  status = assigned;
  assigned_date = env.today;
  trained_date = none;
  trained_by = none;
  trainee_acknowledgment = none;
  expiry_date = none;
  notes = p.notes;
  created_by = env.user.id;
}

unfoldable pub assign_record : Env → Db → TrainingRecordCreate → Result (Db × TrainingRecord)
assign_record env db p = do
  require training_update env db
  exactly_one_trainee p
  organization_id ← require_organization env
  course ← get_course_in_org env db p.course_id
  validate_trainee env db p.employee_id p.user_id
  let r = new_record env p organization_id course
  ok (insert record_table env (session_of env) db r, r)

unfoldable pub updated_record : TrainingRecordUpdate → TrainingRecord → TrainingRecord
updated_record p r = record r { status = chosen p.status r.status; notes = assign p.notes r.notes }

unfoldable pub update_record : Env → Db → ℕ → TrainingRecordUpdate → Result (Db × TrainingRecord)
update_record env db record_id p = do
  require training_update env db
  r ← get_record_in_org env db record_id
  let r' = updated_record p r
  ok (save record_table env (session_of env) db r r', r')

-- The relationship `record.course`, whether or not the course is active
abbrev pub course_of : Db → TrainingRecord → Result TrainingCourse
course_of db r = or_raise (first (λ (c : TrainingCourse). c.id == r.course_id) db.courses) crash

unfoldable pub certify_record : Env → Db → ℕ → TrainingRecordCertify → Result (Db × TrainingRecord)
unfolding strip
certify_record env db record_id p = do
  require training_certify env db
  r ← get_record_in_org env db record_id
  course ← course_of db r
  r' ←
      TrainingWorkflow.certify_record r course env.user.id (strip p.trainee_acknowledgment)
        p.trained_date env.today
  ok (save record_table env (session_of env) db r r', r')

unfoldable pub delete_record : Env → Db → ℕ → Result Db
delete_record env db record_id = do
  require training_delete env db
  r ← get_record_in_org env db record_id
  ok (remove record_table env (session_of env) db r)
