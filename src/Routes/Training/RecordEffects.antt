-- ===== src/Routes/Training/RecordEffects.antt =====
-- What the requests for training records do to the table of records.
use cron_qms.Prelude.{
  ℕ, String, Option, ◌≡◌, refl, sym, ap, ◌∙◌, not, is_none, All, first-All, arith, Error, http, ok,
  ok-injective, >>=-eq-ok,
}
use cron_qms.Dates.{Date}
use cron_qms.Text.{strip}
use cron_qms.Models.Training.{TrainingCourse, TrainingRecord}
use cron_qms.Core.Permissions.{training_update, training_certify, training_delete}
use cron_qms.Db.{Db, Env}
use cron_qms.Services.TrainingWorkflow
use cron_qms.Services.TrainingWorkflow.{expiry}
use cron_qms.Routes.Access.{require, require_organization, require_organization-some}
use cron_qms.Routes.Scoped.{is_row}
use cron_qms.Routes.Scoped.Writes.{IsFound, get_in_org-IsFound}
use cron_qms.Routes.Scoped.Removals.{Effect, removed}
use cron_qms.Routes.Scoped.Ends.{
  saves_row, inserts_row, saves_row-All, inserts_row-All, removes_row-All,
}
use cron_qms.Routes.Tables.More.{record_table}
use cron_qms.Routes.Training.Courses.{get_course_in_org}
use cron_qms.Routes.Training.Records.{
  TrainingRecordCreate, TrainingRecordUpdate, TrainingRecordCertify, exactly_one_trainee,
  get_record_in_org, validate_trainee, new_record, assign_record, updated_record, update_record,
  course_of, certify_record, delete_record,
}

-- "Exactly one of these identifies the trainee."
abbrev pub HasOneTrainee : TrainingRecord → Type 0
HasOneTrainee r = is_none r.employee_id ≡ not (is_none r.user_id)

exactly_one_trainee-ok :
    (p : TrainingRecordCreate)
    → exactly_one_trainee p ≡ ok tt
    → is_none p.employee_id ≡ not (is_none p.user_id)
unfolding exactly_one_trainee
exactly_one_trainee-ok p h = ground arith

abbrev missing : Error
missing = http 404 "Training record not found"

-- A certification keeps the record's key, organization and trainee.
record SameRecord (r r' : TrainingRecord) : Type 0 where
  pub same_id : r'.id ≡ r.id
  pub same_org : r'.organization_id ≡ r.organization_id
  pub same_employee : r'.employee_id ≡ r.employee_id
  pub same_user : r'.user_id ≡ r.user_id

certified-SameRecord :
    (r : TrainingRecord) (c : TrainingCourse) (trainer : ℕ) (ack : String) (day : Option Date)
    (today : Date) {r' : TrainingRecord}
    → TrainingWorkflow.certify_record r c trainer ack day today ≡ ok r'
    → SameRecord r r'
unfolding TrainingWorkflow.certify_record
certified-SameRecord r c trainer ack day today h = record {
  same_id = ground arith;
  same_org = ground arith;
  same_employee = ground arith;
  same_user = ground arith;
}

found_trainee :
    (env : Env) (db : Db) (id : ℕ) (r : TrainingRecord)
    → All HasOneTrainee db.records
    → IsFound record_table env db id r
    → HasOneTrainee r
found_trainee env db id r trainees r_found =
    first-All HasOneTrainee (is_row record_table r.id) db.records trainees r_found.found

module _ (env : Env) (db : Db) {db' : Db} {fresh : Type 0}
    (trainees : All HasOneTrainee db.records) where
  pub enroll-Effect :
      (p : TrainingRecordCreate) {r' : TrainingRecord}
      → fresh
      → assign_record env db p ≡ ok (db', r')
      → Effect record_table fresh env db db' × All HasOneTrainee db'.records
  unfolding assign_record new_record
  enroll-Effect p is_fresh h =
      let (_, _, h1) = >>=-eq-ok (require training_update env db) _ h in
      let (_, one, h2) = >>=-eq-ok (exactly_one_trainee p) _ h1 in
      let (o, own, h3) = >>=-eq-ok (require_organization env) _ h2 in
      let (c, _, h4) = >>=-eq-ok (get_course_in_org env db p.course_id) _ h3 in
      let (_, _, h5) = >>=-eq-ok (validate_trainee env db p.employee_id p.user_id) _ h4 in
      let r = new_record env p o c in
      (
        inserts_row record_table env db r is_fresh (require_organization-some env own) refl h5,
        inserts_row-All record_table env db HasOneTrainee trainees r (exactly_one_trainee-ok p one)
            h5,
      )

  pub edit_record-Effect :
      (id : ℕ) (p : TrainingRecordUpdate) {r' : TrainingRecord}
      → update_record env db id p ≡ ok (db', r')
      → Effect record_table fresh env db db' × All HasOneTrainee db'.records
  unfolding update_record updated_record
  edit_record-Effect id p h =
      let (_, _, h1) = >>=-eq-ok (require training_update env db) _ h in
      let (r, found, h2) = >>=-eq-ok (get_record_in_org env db id) _ h1 in
      let r_found = get_in_org-IsFound record_table missing env db id found in
      (
        saves_row record_table env db id r (updated_record p r) r_found
            (record { same_key = refl; same_org = refl }) h2,
        saves_row-All record_table env db HasOneTrainee trainees r (updated_record p r)
            (found_trainee env db id r trainees r_found) h2,
      )

  pub certify-Effect :
      (id : ℕ) (p : TrainingRecordCertify) {r' : TrainingRecord}
      → certify_record env db id p ≡ ok (db', r')
      → Effect record_table fresh env db db' × All HasOneTrainee db'.records
  unfolding certify_record
  certify-Effect id p h =
      let (_, _, h1) = >>=-eq-ok (require training_certify env db) _ h in
      let (r, found, h2) = >>=-eq-ok (get_record_in_org env db id) _ h1 in
      let (c, _, h3) = >>=-eq-ok (course_of db r) _ h2 in
      let (r2, is_certified, h4) =
        >>=-eq-ok
          (TrainingWorkflow.certify_record r c env.user.id (strip p.trainee_acknowledgment)
            p.trained_date env.today)
          _ h3 in
      let same = certified-SameRecord r c env.user.id _ p.trained_date env.today is_certified in
      let r_found = get_in_org-IsFound record_table missing env db id found in
      let one : HasOneTrainee r2 =
        ap is_none same.same_employee
        ∙ found_trainee env db id r trainees r_found
        ∙ ap (λ u. not (is_none u)) (sym same.same_user) in
      (
        saves_row record_table env db id r r2 r_found
            (record { same_key = same.same_id; same_org = same.same_org }) h4,
        saves_row-All record_table env db HasOneTrainee trainees r r2 one h4,
      )

  pub drop_record-Effect :
      (id : ℕ)
      → delete_record env db id ≡ ok db'
      → Effect record_table fresh env db db' × All HasOneTrainee db'.records
  unfolding delete_record
  drop_record-Effect id h =
      let (_, _, h1) = >>=-eq-ok (require training_delete env db) _ h in
      let (r, found, h2) = >>=-eq-ok (get_record_in_org env db id) _ h1 in
      (
        removed id r (get_in_org-IsFound record_table missing env db id found)
            (sym (ok-injective h2)),
        removes_row-All record_table env db HasOneTrainee trainees r h2,
      )
