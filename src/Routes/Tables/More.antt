-- ===== src/Routes/Tables/More.antt =====
-- The tables of change control, audits, training and alerts as scoped tables. An action, a finding and a
-- training record have no `is_active`, and their queries do not ask for one.
use cron_qms.Prelude.{refl, true, arith}
use cron_qms.Models.Change.{ChangeRequest, ChangeAction, change_fields, action_fields}
use cron_qms.Models.Audit.{Audit, AuditFinding, audit_fields, finding_fields}
use cron_qms.Models.Training.{
  Employee, TrainingCourse, TrainingRecord, employee_fields, course_fields, record_fields,
}
use cron_qms.Models.Alert.{Alert, alert_fields}
use cron_qms.Core.Audit.Replay.{SameNames, Distinct}
use cron_qms.Routes.Scoped.{Scoped}

pub change_fields-SameNames : (a b : ChangeRequest) → SameNames (change_fields a) (change_fields b)
unfolding change_fields
change_fields-SameNames a b = ground arith

pub change_fields-Distinct : (a : ChangeRequest) → Distinct (change_fields a)
unfolding change_fields
change_fields-Distinct a = ground arith

abbrev pub change_table : Scoped ChangeRequest
change_table = record {
  audited = record {
    entity = "change_request";
    id = λ a. a.id;
    fields = change_fields;
    same_names = change_fields-SameNames;
    distinct = change_fields-Distinct;
  };
  organization = λ a. a.organization_id;
  active = λ a. a.is_active;
  rows = λ db. db.changes;
  put = λ db xs h. record db { changes = xs; history = h };
  rows-put = λ db xs h. refl;
  history-put = λ db xs h. refl;
}

pub action_fields-SameNames : (a b : ChangeAction) → SameNames (action_fields a) (action_fields b)
unfolding action_fields
action_fields-SameNames a b = ground arith

pub action_fields-Distinct : (a : ChangeAction) → Distinct (action_fields a)
unfolding action_fields
action_fields-Distinct a = ground arith

abbrev pub action_table : Scoped ChangeAction
action_table = record {
  audited = record {
    entity = "change_action";
    id = λ a. a.id;
    fields = action_fields;
    same_names = action_fields-SameNames;
    distinct = action_fields-Distinct;
  };
  organization = λ a. a.organization_id;
  active = λ a. true;
  rows = λ db. db.actions;
  put = λ db xs h. record db { actions = xs; history = h };
  rows-put = λ db xs h. refl;
  history-put = λ db xs h. refl;
}

pub audit_fields-SameNames : (a b : Audit) → SameNames (audit_fields a) (audit_fields b)
unfolding audit_fields
audit_fields-SameNames a b = ground arith

pub audit_fields-Distinct : (a : Audit) → Distinct (audit_fields a)
unfolding audit_fields
audit_fields-Distinct a = ground arith

abbrev pub audit_table : Scoped Audit
audit_table = record {
  audited = record {
    entity = "audit";
    id = λ a. a.id;
    fields = audit_fields;
    same_names = audit_fields-SameNames;
    distinct = audit_fields-Distinct;
  };
  organization = λ a. a.organization_id;
  active = λ a. a.is_active;
  rows = λ db. db.audits;
  put = λ db xs h. record db { audits = xs; history = h };
  rows-put = λ db xs h. refl;
  history-put = λ db xs h. refl;
}

pub finding_fields-SameNames :
    (a b : AuditFinding) → SameNames (finding_fields a) (finding_fields b)
unfolding finding_fields
finding_fields-SameNames a b = ground arith

pub finding_fields-Distinct : (a : AuditFinding) → Distinct (finding_fields a)
unfolding finding_fields
finding_fields-Distinct a = ground arith

abbrev pub finding_table : Scoped AuditFinding
finding_table = record {
  audited = record {
    entity = "audit_finding";
    id = λ a. a.id;
    fields = finding_fields;
    same_names = finding_fields-SameNames;
    distinct = finding_fields-Distinct;
  };
  organization = λ a. a.organization_id;
  active = λ a. true;
  rows = λ db. db.findings;
  put = λ db xs h. record db { findings = xs; history = h };
  rows-put = λ db xs h. refl;
  history-put = λ db xs h. refl;
}

pub employee_fields-SameNames : (a b : Employee) → SameNames (employee_fields a) (employee_fields b)
unfolding employee_fields
employee_fields-SameNames a b = ground arith

pub employee_fields-Distinct : (a : Employee) → Distinct (employee_fields a)
unfolding employee_fields
employee_fields-Distinct a = ground arith

abbrev pub employee_table : Scoped Employee
employee_table = record {
  audited = record {
    entity = "employee";
    id = λ a. a.id;
    fields = employee_fields;
    same_names = employee_fields-SameNames;
    distinct = employee_fields-Distinct;
  };
  organization = λ a. a.organization_id;
  active = λ a. a.is_active;
  rows = λ db. db.employees;
  put = λ db xs h. record db { employees = xs; history = h };
  rows-put = λ db xs h. refl;
  history-put = λ db xs h. refl;
}

pub course_fields-SameNames : (a b : TrainingCourse) → SameNames (course_fields a) (course_fields b)
unfolding course_fields
course_fields-SameNames a b = ground arith

pub course_fields-Distinct : (a : TrainingCourse) → Distinct (course_fields a)
unfolding course_fields
course_fields-Distinct a = ground arith

abbrev pub course_table : Scoped TrainingCourse
course_table = record {
  audited = record {
    entity = "training_course";
    id = λ a. a.id;
    fields = course_fields;
    same_names = course_fields-SameNames;
    distinct = course_fields-Distinct;
  };
  organization = λ a. a.organization_id;
  active = λ a. a.is_active;
  rows = λ db. db.courses;
  put = λ db xs h. record db { courses = xs; history = h };
  rows-put = λ db xs h. refl;
  history-put = λ db xs h. refl;
}

pub record_fields-SameNames : (a b : TrainingRecord) → SameNames (record_fields a) (record_fields b)
unfolding record_fields
record_fields-SameNames a b = ground arith

pub record_fields-Distinct : (a : TrainingRecord) → Distinct (record_fields a)
unfolding record_fields
record_fields-Distinct a = ground arith

abbrev pub record_table : Scoped TrainingRecord
record_table = record {
  audited = record {
    entity = "training_record";
    id = λ a. a.id;
    fields = record_fields;
    same_names = record_fields-SameNames;
    distinct = record_fields-Distinct;
  };
  organization = λ a. a.organization_id;
  active = λ a. true;
  rows = λ db. db.records;
  put = λ db xs h. record db { records = xs; history = h };
  rows-put = λ db xs h. refl;
  history-put = λ db xs h. refl;
}

pub alert_fields-SameNames : (a b : Alert) → SameNames (alert_fields a) (alert_fields b)
unfolding alert_fields
alert_fields-SameNames a b = ground arith

pub alert_fields-Distinct : (a : Alert) → Distinct (alert_fields a)
unfolding alert_fields
alert_fields-Distinct a = ground arith

abbrev pub alert_table : Scoped Alert
alert_table = record {
  audited = record {
    entity = "alert";
    id = λ a. a.id;
    fields = alert_fields;
    same_names = alert_fields-SameNames;
    distinct = alert_fields-Distinct;
  };
  organization = λ a. a.organization_id;
  active = λ a. a.is_active;
  rows = λ db. db.alerts;
  put = λ db xs h. record db { alerts = xs; history = h };
  rows-put = λ db xs h. refl;
  history-put = λ db xs h. refl;
}
