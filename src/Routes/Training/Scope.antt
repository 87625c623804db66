-- ===== src/Routes/Training/Scope.antt =====
-- The organization, the audit trail and the trainees of app/api/routes/training.py: all the requests
-- that write, over the tables of employees, courses and records.
use cron_qms.Prelude.{◌≡◌, refl, sym, ap, subst, All, ok}
use cron_qms.Db.{wrote_to-ok, Db, Env}
use cron_qms.Routes.Scoped.Writes.{foreign}
use cron_qms.Routes.Scoped.Trail.{IsAudited, IsNewKey}
use cron_qms.Routes.Scoped.Removals.{Effect, Effect-IsScoped, Effect-others, Appends}
use cron_qms.Routes.Scoped.Ends.{IsScoped-elsewhere, IsScoped-Appends}
use cron_qms.Routes.Tables.More.{employee_table, course_table, record_table}
use cron_qms.Routes.Training.Employees.{create_employee, update_employee, delete_employee}
use cron_qms.Routes.Training.Courses.{create_course, update_course, delete_course}
use cron_qms.Routes.Training.Records.{assign_record, update_record, certify_record}
use cron_qms.Routes.Training.Effects
use cron_qms.Routes.Training.RecordEffects
use cron_qms.Routes.Training.RecordEffects.{HasOneTrainee}
use cron_qms.Routes.Training.Requests.{
  Request, hire, edit_employee, retire, define, edit_course, withdraw, enroll, edit_record, certify,
  drop_record, handle,
}

-- The keys of each table are distinct, the trail shows every row as it is, and each record names
-- exactly one trainee.
pub record IsWellFormed (db : Db) : Type 0 where
  pub employees : IsAudited employee_table db
  pub courses : IsAudited course_table db
  pub records : IsAudited record_table db
  pub trainees : All HasOneTrainee db.records

-- A request that inserts a row gets a new key for its table.
abbrev pub IsNewFor : Env → Db → Request → Type 0
IsNewFor env db (hire p) = IsNewKey employee_table env db
IsNewFor env db (define p) = IsNewKey course_table env db
IsNewFor env db (enroll p) = IsNewKey record_table env db
IsNewFor env db r = Unit

pub record IsConfined (env : Env) (db db' : Db) : Type 0 where
  pub well_formed : IsWellFormed db'
  pub employees : foreign employee_table env db'.employees ≡ foreign employee_table env db.employees
  pub courses : foreign course_table env db'.courses ≡ foreign course_table env db.courses
  pub records : foreign record_table env db'.records ≡ foreign record_table env db.records
  pub trail : Appends env db db'

module _ (env : Env) (db db' : Db) (wf : IsWellFormed db) where
  employee_step :
      Effect employee_table (IsNewKey employee_table env db) env db db' → IsConfined env db db'
  employee_step effect =
      let scoped = Effect-IsScoped employee_table env db db' (λ f. f) wf.employees effect in
      let courses_are : db'.courses ≡ db.courses =
        Effect-others employee_table env db db' (λ d. d.courses) (λ d xs h. refl) effect in
      let records_are : db'.records ≡ db.records =
        Effect-others employee_table env db db' (λ d. d.records) (λ d xs h. refl) effect in
      record {
        well_formed = record {
          employees = scoped.audited;
          courses =
              IsScoped-elsewhere employee_table course_table env db db' refl courses_are wf.courses
                scoped;
          records =
              IsScoped-elsewhere employee_table record_table env db db' refl records_are wf.records
                scoped;
          trainees = subst (All HasOneTrainee) (sym records_are) wf.trainees;
        };
        employees = scoped.isolated;
        courses = ap (foreign course_table env) courses_are;
        records = ap (foreign record_table env) records_are;
        trail = IsScoped-Appends employee_table env db db' scoped;
      }

  course_step :
      Effect course_table (IsNewKey course_table env db) env db db' → IsConfined env db db'
  course_step effect =
      let scoped = Effect-IsScoped course_table env db db' (λ f. f) wf.courses effect in
      let employees_are : db'.employees ≡ db.employees =
        Effect-others course_table env db db' (λ d. d.employees) (λ d xs h. refl) effect in
      let records_are : db'.records ≡ db.records =
        Effect-others course_table env db db' (λ d. d.records) (λ d xs h. refl) effect in
      record {
        well_formed = record {
          employees =
              IsScoped-elsewhere course_table employee_table env db db' refl employees_are
                wf.employees scoped;
          courses = scoped.audited;
          records =
              IsScoped-elsewhere course_table record_table env db db' refl records_are wf.records
                scoped;
          trainees = subst (All HasOneTrainee) (sym records_are) wf.trainees;
        };
        employees = ap (foreign employee_table env) employees_are;
        courses = scoped.isolated;
        records = ap (foreign record_table env) records_are;
        trail = IsScoped-Appends course_table env db db' scoped;
      }

  record_step :
      Effect record_table (IsNewKey record_table env db) env db db' × All HasOneTrainee db'.records
      → IsConfined env db db'
  record_step (effect, trainees) =
      let scoped = Effect-IsScoped record_table env db db' (λ f. f) wf.records effect in
      let employees_are : db'.employees ≡ db.employees =
        Effect-others record_table env db db' (λ d. d.employees) (λ d xs h. refl) effect in
      let courses_are : db'.courses ≡ db.courses =
        Effect-others record_table env db db' (λ d. d.courses) (λ d xs h. refl) effect in
      record {
        well_formed = record {
          employees =
              IsScoped-elsewhere record_table employee_table env db db' refl employees_are
                wf.employees scoped;
          courses =
              IsScoped-elsewhere record_table course_table env db db' refl courses_are wf.courses
                scoped;
          records = scoped.audited;
          trainees = trainees;
        };
        employees = ap (foreign employee_table env) employees_are;
        courses = ap (foreign course_table env) courses_are;
        records = scoped.isolated;
        trail = IsScoped-Appends record_table env db db' scoped;
      }

-- If the tables of training are well formed (distinct keys, a complete trail, exactly one trainee
-- in each record) and a row that the request inserts gets a new key, then a request that succeeds
-- leaves the employees, the courses and the records of other organizations as they are, keeps the
-- tables well formed, and appends to the trail only rows that name its caller and its time.
pub training_request_scope :
    (env : Env) (db : Db) (r : Request) {db' : Db}
    → IsWellFormed db
    → IsNewFor env db r
    → handle env db r ≡ ok db'
    → IsConfined env db db'
unfolding handle
training_request_scope env db (hire p) {db'} wf is_new h =
    let (_, is) = wrote_to-ok (create_employee env db p) h in
    employee_step env db db' wf (Effects.hire-Effect env db p is_new is)
training_request_scope env db (edit_employee id p) {db'} wf is_new h =
    let (_, is) = wrote_to-ok (update_employee env db id p) h in
    employee_step env db db' wf (Effects.edit_employee-Effect env db id p is)
training_request_scope env db (retire id) {db'} wf is_new h =
    let (_, is) = wrote_to-ok (delete_employee env db id) h in
    employee_step env db db' wf (Effects.retire-Effect env db id is)
training_request_scope env db (define p) {db'} wf is_new h =
    let (_, is) = wrote_to-ok (create_course env db p) h in
    course_step env db db' wf (Effects.define-Effect env db p is_new is)
training_request_scope env db (edit_course id p) {db'} wf is_new h =
    let (_, is) = wrote_to-ok (update_course env db id p) h in
    course_step env db db' wf (Effects.edit_course-Effect env db id p is)
training_request_scope env db (withdraw id) {db'} wf is_new h =
    let (_, is) = wrote_to-ok (delete_course env db id) h in
    course_step env db db' wf (Effects.withdraw-Effect env db id is)
training_request_scope env db (enroll p) {db'} wf is_new h =
    let (_, is) = wrote_to-ok (assign_record env db p) h in
    record_step env db db' wf (RecordEffects.enroll-Effect env db wf.trainees p is_new is)
training_request_scope env db (edit_record id p) {db'} wf is_new h =
    let (_, is) = wrote_to-ok (update_record env db id p) h in
    record_step env db db' wf (RecordEffects.edit_record-Effect env db wf.trainees id p is)
training_request_scope env db (certify id p) {db'} wf is_new h =
    let (_, is) = wrote_to-ok (certify_record env db id p) h in
    record_step env db db' wf (RecordEffects.certify-Effect env db wf.trainees id p is)
training_request_scope env db (drop_record id) {db'} wf is_new h =
    record_step env db db' wf (RecordEffects.drop_record-Effect env db wf.trainees id h)
