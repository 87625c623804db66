-- ===== src/Routes/Training/Requests.antt =====
-- The requests of app/api/routes/training.py that write.
use cron_qms.Prelude.{ℕ, Result}
use cron_qms.Db.{Db, Env, wrote_to}
use cron_qms.Routes.Training.Employees.{
  EmployeeCreate, EmployeeUpdate, create_employee, update_employee, delete_employee,
}
use cron_qms.Routes.Training.Courses.{
  TrainingCourseCreate, TrainingCourseUpdate, create_course, update_course, delete_course,
}
use cron_qms.Routes.Training.Records.{
  TrainingRecordCreate, TrainingRecordUpdate, TrainingRecordCertify, assign_record, update_record,
  certify_record, delete_record,
}

pub data Request : Type 0 where
  hire : EmployeeCreate → Request
  edit_employee : ℕ → EmployeeUpdate → Request
  retire : ℕ → Request
  define : TrainingCourseCreate → Request
  edit_course : ℕ → TrainingCourseUpdate → Request
  withdraw : ℕ → Request
  enroll : TrainingRecordCreate → Request
  edit_record : ℕ → TrainingRecordUpdate → Request
  certify : ℕ → TrainingRecordCertify → Request
  drop_record : ℕ → Request

unfoldable pub handle : Env → Db → Request → Result Db
unfolding create_employee update_employee delete_employee create_course update_course delete_course
    assign_record update_record certify_record delete_record
handle env db (hire p) = wrote_to (create_employee env db p)
handle env db (edit_employee id p) = wrote_to (update_employee env db id p)
handle env db (retire id) = wrote_to (delete_employee env db id)
handle env db (define p) = wrote_to (create_course env db p)
handle env db (edit_course id p) = wrote_to (update_course env db id p)
handle env db (withdraw id) = wrote_to (delete_course env db id)
handle env db (enroll p) = wrote_to (assign_record env db p)
handle env db (edit_record id p) = wrote_to (update_record env db id p)
handle env db (certify id p) = wrote_to (certify_record env db id p)
handle env db (drop_record id) = delete_record env db id
