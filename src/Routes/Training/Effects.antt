-- ===== src/Routes/Training/Effects.antt =====
-- What the requests of app/api/routes/training.py do to their tables.
use cron_qms.Prelude.{ℕ, ◌≡◌, refl, false, arith, Error, http, ok, >>=-eq-ok}
use cron_qms.Models.Training.{Employee, TrainingCourse}
use cron_qms.Core.Permissions.{training_create, training_update, training_delete}
use cron_qms.Db.{Db, Env}
use cron_qms.Routes.Access.{require, require_organization, require_organization-some}
use cron_qms.Routes.Scoped.Writes.{SameOwner, get_in_org-IsFound}
use cron_qms.Routes.Scoped.Removals.{Effect}
use cron_qms.Routes.Scoped.Ends.{saves_row, inserts_row}
use cron_qms.Routes.Tables.More.{employee_table, course_table}
use cron_qms.Routes.Training.Employees.{
  EmployeeCreate, EmployeeUpdate, get_employee_in_org, new_employee, create_employee,
  updated_employee, update_employee, delete_employee,
}
use cron_qms.Routes.Training.Courses.{
  TrainingCourseCreate, TrainingCourseUpdate, get_course_in_org, resolve_document, new_course,
  create_course, updated_course, update_course, delete_course,
}

abbrev no_employee : Error
no_employee = http 404 "Employee not found"

abbrev no_course : Error
no_course = http 404 "Course not found"

updated_employee-SameOwner :
    (p : EmployeeUpdate) (e : Employee) {e' : Employee}
    → updated_employee p e ≡ ok e'
    → SameOwner employee_table e e'
unfolding updated_employee
updated_employee-SameOwner p e h = ground arith

updated_course-SameOwner :
    (db : Db) (p : TrainingCourseUpdate) (c : TrainingCourse) {c' : TrainingCourse}
    → updated_course db p c ≡ ok c'
    → SameOwner course_table c c'
unfolding updated_course resolve_document
updated_course-SameOwner db p c h = ground arith

module _ (env : Env) (db : Db) {db' : Db} {fresh : Type 0} where
  pub hire-Effect :
      (p : EmployeeCreate) {e' : Employee}
      → fresh
      → create_employee env db p ≡ ok (db', e')
      → Effect employee_table fresh env db db'
  unfolding create_employee new_employee
  hire-Effect p is_fresh h =
      let (_, _, h1) = >>=-eq-ok (require training_create env db) _ h in
      let (o, own, h2) = >>=-eq-ok (require_organization env) _ h1 in
      inserts_row employee_table env db (new_employee env p o) is_fresh
        (require_organization-some env own) refl h2

  pub edit_employee-Effect :
      (id : ℕ) (p : EmployeeUpdate) {e' : Employee}
      → update_employee env db id p ≡ ok (db', e')
      → Effect employee_table fresh env db db'
  unfolding update_employee
  edit_employee-Effect id p h =
      let (_, _, h1) = >>=-eq-ok (require training_update env db) _ h in
      let (e, found, h2) = >>=-eq-ok (get_employee_in_org env db id) _ h1 in
      let (e2, up, h3) = >>=-eq-ok (updated_employee p e) _ h2 in
      saves_row employee_table env db id e e2
        (get_in_org-IsFound employee_table no_employee env db id found)
        (updated_employee-SameOwner p e up) h3

  pub retire-Effect :
      (id : ℕ) {e' : Employee}
      → delete_employee env db id ≡ ok (db', e')
      → Effect employee_table fresh env db db'
  unfolding delete_employee
  retire-Effect id h =
      let (_, _, h1) = >>=-eq-ok (require training_delete env db) _ h in
      let (e, found, h2) = >>=-eq-ok (get_employee_in_org env db id) _ h1 in
      saves_row employee_table env db id e (record e { is_active = false })
        (get_in_org-IsFound employee_table no_employee env db id found)
        (record { same_key = refl; same_org = refl }) h2

  pub define-Effect :
      (p : TrainingCourseCreate) {c' : TrainingCourse}
      → fresh
      → create_course env db p ≡ ok (db', c')
      → Effect course_table fresh env db db'
  unfolding create_course new_course
  define-Effect p is_fresh h =
      let (_, _, h1) = >>=-eq-ok (require training_create env db) _ h in
      let (o, own, h2) = >>=-eq-ok (require_organization env) _ h1 in
      let (d, _, h3) = >>=-eq-ok (resolve_document db p.document_id o) _ h2 in
      inserts_row course_table env db (new_course env p o d) is_fresh
        (require_organization-some env own) refl h3

  pub edit_course-Effect :
      (id : ℕ) (p : TrainingCourseUpdate) {c' : TrainingCourse}
      → update_course env db id p ≡ ok (db', c')
      → Effect course_table fresh env db db'
  unfolding update_course
  edit_course-Effect id p h =
      let (_, _, h1) = >>=-eq-ok (require training_update env db) _ h in
      let (c, found, h2) = >>=-eq-ok (get_course_in_org env db id) _ h1 in
      let (c2, up, h3) = >>=-eq-ok (updated_course db p c) _ h2 in
      saves_row course_table env db id c c2
        (get_in_org-IsFound course_table no_course env db id found)
        (updated_course-SameOwner db p c up) h3

  pub withdraw-Effect :
      (id : ℕ) {c' : TrainingCourse}
      → delete_course env db id ≡ ok (db', c')
      → Effect course_table fresh env db db'
  unfolding delete_course
  withdraw-Effect id h =
      let (_, _, h1) = >>=-eq-ok (require training_delete env db) _ h in
      let (c, found, h2) = >>=-eq-ok (get_course_in_org env db id) _ h1 in
      saves_row course_table env db id c (record c { is_active = false })
        (get_in_org-IsFound course_table no_course env db id found)
        (record { same_key = refl; same_org = refl }) h2
