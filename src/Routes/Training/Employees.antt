-- ===== src/Routes/Training/Employees.antt =====
-- The employees in app/api/routes/training.py.
use cron_qms.Prelude.{ℕ, String, true, false, Option, Result, ok, http, ◌>>=◌, ◌>>◌}
use cron_qms.Text.{strip}
use cron_qms.Models.Training.{Employee}
use cron_qms.Core.Permissions.{training_create, training_read, training_update, training_delete}
use cron_qms.Db.{Db, Env, session_of}
use cron_qms.Routes.Scoped.{get_in_org, save, insert}
use cron_qms.Routes.Tables.More.{employee_table}
use cron_qms.Routes.Access.{require, require_organization, Field, assign, assign_required}

pub record EmployeeCreate : Type 0 where
  pub full_name : String
  pub employee_number : Option String
  pub department : Option String
  pub job_title : Option String

pub record EmployeeUpdate : Type 0 where
  pub full_name : Field String
  pub employee_number : Field String
  pub department : Field String
  pub job_title : Field String

-- `_get_employee_in_org`
abbrev pub get_employee_in_org : Env → Db → ℕ → Result Employee
get_employee_in_org = get_in_org employee_table (http 404 "Employee not found")

unfoldable pub new_employee : Env → EmployeeCreate → ℕ → Employee
unfolding strip
new_employee env p organization_id = record {
  id = env.new_id;
  organization_id = organization_id;
  full_name = strip p.full_name;
  employee_number = p.employee_number;
  department = p.department;
  job_title = p.job_title;
  created_by = env.user.id;
  is_active = true;
}

unfoldable pub create_employee : Env → Db → EmployeeCreate → Result (Db × Employee)
unfolding new_employee
create_employee env db p = do
  require training_create env db
  organization_id ← require_organization env
  let employee = new_employee env p organization_id
  ok (insert employee_table env (session_of env) db employee, employee)

unfoldable pub get_employee : Env → Db → ℕ → Result Employee
get_employee env db employee_id = do
  require training_read env db
  get_employee_in_org env db employee_id

unfoldable pub updated_employee : EmployeeUpdate → Employee → Result Employee
updated_employee p employee = do
  full_name ← assign_required p.full_name employee.full_name
  ok (record employee {
    full_name = full_name;
    employee_number = assign p.employee_number employee.employee_number;
    department = assign p.department employee.department;
    job_title = assign p.job_title employee.job_title;
  })

unfoldable pub update_employee : Env → Db → ℕ → EmployeeUpdate → Result (Db × Employee)
update_employee env db employee_id p = do
  require training_update env db
  employee ← get_employee_in_org env db employee_id
  employee' ← updated_employee p employee
  ok (save employee_table env (session_of env) db employee employee', employee')

unfoldable pub delete_employee : Env → Db → ℕ → Result (Db × Employee)
delete_employee env db employee_id = do
  require training_delete env db
  employee ← get_employee_in_org env db employee_id
  let employee' = record employee { is_active = false }
  ok (save employee_table env (session_of env) db employee employee', employee')
