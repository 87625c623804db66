-- ===== src/Tests/TrainingRouteTests.antt =====
-- The training routes on a small database.
use cron_qms.Prelude.{◌≡◌, refl, true, none, some, ok}
use cron_qms.Models.Training.{Employee}
use cron_qms.Core.Audit.Replay.{Shows-nil}
use cron_qms.Core.Permissions.{
  require_permission, has, all_permissions, resolve_from_db, user_has_permission,
}
use cron_qms.Db.{Db, session_of}
use cron_qms.Routes.Access
use cron_qms.Routes.Access.{require}
use cron_qms.Routes.Scoped.{insert}
use cron_qms.Routes.Scoped.Trail.{IsNewKey}
use cron_qms.Routes.Tables.More.{employee_table}
use cron_qms.Routes.Training.Employees
use cron_qms.Routes.Training.Requests
use cron_qms.Routes.Training.Scope.{IsWellFormed, IsConfined, training_request_scope}
use cron_qms.Tests.Fixtures.{env, empty_db}

abbrev form : Employees.EmployeeCreate
form = record {
  full_name = " Ann ";
  employee_number = none;
  department = some "Paint";
  job_title = none;
}

abbrev ann : Employee
ann = record {
  id = 11;
  organization_id = 7;
  full_name = "Ann";
  employee_number = none;
  department = some "Paint";
  job_title = none;
  created_by = 1;
  is_active = true;
}

abbrev hired : Db
hired = insert employee_table env (session_of env) empty_db ann

hiring : Requests.handle env empty_db (Requests.hire form) ≡ ok hired
unfolding Requests.handle require require_permission user_has_permission has resolve_from_db
    all_permissions Access.require_organization
hiring = refl

empty_db-IsWellFormed : IsWellFormed empty_db
empty_db-IsWellFormed = record {
  employees = record { recorded = tt; keys = tt };
  courses = record { recorded = tt; keys = tt };
  records = record { recorded = tt; keys = tt };
  trainees = tt;
}

empty_db-IsNewEmployee : IsNewKey employee_table env empty_db
empty_db-IsNewEmployee = record {
  unused = tt;
  silent = Shows-nil (record { entity = "employee"; id = 11 });
}

training_request_scope_example : IsConfined env empty_db hired
training_request_scope_example =
    training_request_scope env empty_db (Requests.hire form) empty_db-IsWellFormed
      empty_db-IsNewEmployee hiring
