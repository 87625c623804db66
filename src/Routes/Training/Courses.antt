-- ===== src/Routes/Training/Courses.antt =====
-- The courses in app/api/routes/training.py.
use cron_qms.Prelude.{
  ℕ, String, true, false, ◌&&◌, Option, none, some, first, ◌==◌, Result, ok, http, or_raise, ◌>>=◌,
  ◌>>◌,
}
use cron_qms.Text.{strip}
use cron_qms.Models.Training.{TrainingCourse}
use cron_qms.Core.Permissions.{training_create, training_read, training_update, training_delete}
use cron_qms.Db.{Db, Env, session_of}
use cron_qms.Routes.Scoped.{get_in_org, save, insert}
use cron_qms.Routes.Tables.More.{course_table}
use cron_qms.Routes.Access.{
  require, require_organization, Field, unset, sent, assign, assign_required,
}

pub record TrainingCourseCreate : Type 0 where
  pub code : String
  pub title : String
  pub description : Option String
  pub document_id : Option ℕ
  pub recertification_period_months : Option ℕ

pub record TrainingCourseUpdate : Type 0 where
  pub code : Field String
  pub title : Field String
  pub description : Field String
  pub document_id : Field ℕ
  pub recertification_period_months : Field ℕ

-- `_get_course_in_org`
abbrev pub get_course_in_org : Env → Db → ℕ → Result TrainingCourse
get_course_in_org = get_in_org course_table (http 404 "Course not found")

-- `_resolve_document`
unfoldable pub resolve_document : Db → Option ℕ → ℕ → Result (Option ℕ)
resolve_document db none organization_id = ok none
resolve_document db (some document_id) organization_id = do
  document ←
      or_raise
        (first (λ d. d.id == document_id && (d.organization_id == organization_id && d.is_active))
          db.documents)
        (http 400 "Document not found in your organization")
  ok (some document.id)

unfoldable pub new_course : Env → TrainingCourseCreate → ℕ → Option ℕ → TrainingCourse
unfolding strip
new_course env p organization_id document_id = record {
  id = env.new_id;
  organization_id = organization_id;
  code = strip p.code;
  title = strip p.title;
  description = p.description;
  document_id = document_id;
  recertification_period_months = p.recertification_period_months;
  created_by = env.user.id;
  is_active = true;
}

unfoldable pub create_course : Env → Db → TrainingCourseCreate → Result (Db × TrainingCourse)
unfolding new_course
create_course env db p = do
  require training_create env db
  organization_id ← require_organization env
  document_id ← resolve_document db p.document_id organization_id
  let course = new_course env p organization_id document_id
  ok (insert course_table env (session_of env) db course, course)

unfoldable pub get_course : Env → Db → ℕ → Result TrainingCourse
get_course env db course_id = do require training_read env db; get_course_in_org env db course_id

abbrev pub linked_document : Db → Field ℕ → TrainingCourse → Result (Option ℕ)
linked_document db unset course = ok course.document_id
linked_document db (sent document_id) course =
    resolve_document db document_id course.organization_id

unfoldable pub updated_course : Db → TrainingCourseUpdate → TrainingCourse → Result TrainingCourse
updated_course db p course = do
  document_id ← linked_document db p.document_id course
  code ← assign_required p.code course.code
  title ← assign_required p.title course.title
  ok (record course {
    code = code;
    title = title;
    description = assign p.description course.description;
    document_id = document_id;
    recertification_period_months =
        assign p.recertification_period_months course.recertification_period_months;
  })

unfoldable pub update_course : Env → Db → ℕ → TrainingCourseUpdate → Result (Db × TrainingCourse)
update_course env db course_id p = do
  require training_update env db
  course ← get_course_in_org env db course_id
  course' ← updated_course db p course
  ok (save course_table env (session_of env) db course course', course')

unfoldable pub delete_course : Env → Db → ℕ → Result (Db × TrainingCourse)
delete_course env db course_id = do
  require training_delete env db
  course ← get_course_in_org env db course_id
  let course' = record course { is_active = false }
  ok (save course_table env (session_of env) db course course', course')
