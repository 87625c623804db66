-- ===== src/Tests/TrainingTests.antt =====
-- A certification and its expiry.
use cron_qms.Prelude.{none, some, true}
use cron_qms.Dates.{Date, date}
use cron_qms.Models.Training.{TrainingCourse, TrainingRecord, assigned}

abbrev yearly : TrainingCourse
yearly = record {
  id = 50;
  organization_id = 7;
  code = "T-1";
  title = "Safety";
  description = none;
  document_id = none;
  recertification_period_months = some 12;
  created_by = 2;
  is_active = true;
}

abbrev once : TrainingCourse
once = record yearly { recertification_period_months = none }

abbrev assignment : TrainingRecord
assignment = record {
  id = 60;
  organization_id = 7;
  course_id = 50;
  employee_id = none;
  user_id = some 5;
  status = assigned;
  assigned_date = date 2024 1 1;
  trained_date = none;
  trained_by = none;
  trainee_acknowledgment = none;
  expiry_date = none;
  notes = none;
  created_by = 2;
}

abbrev leap_day : Date
leap_day = date 2024 2 29
