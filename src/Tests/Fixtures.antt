-- ===== src/Tests/Fixtures.antt =====
-- A small organization, its users and an event.
use cron_qms.Prelude.{true, none, some, [], ◌∷◌}
use cron_qms.Dates.{date}
use cron_qms.Models.User.{User}
use cron_qms.Models.Event.{Event, opened, defect}
use cron_qms.Core.Audit.{Session}
use cron_qms.Db.{Db, Env}

abbrev pub boss : User
boss = record { id = 1; role = "Admin"; organization_id = some 7; is_active = true }

abbrev pub stranger : User
stranger = record { id = 5; role = "Nobody"; organization_id = some 7; is_active = true }

abbrev pub scratch : Event
scratch = record {
  id = 10;
  title = "Scratch";
  description = none;
  event_type = defect;
  status = opened;
  priority = "High";
  assigned_to = some 3;
  assigned_group_id = none;
  organization_id = 7;
  site_id = none;
  target_close_date = none;
  product_part_number = none;
  lot_batch = none;
  supplier = none;
  work_order = none;
  machine = none;
  is_active = true;
  reported_by = 2;
  closed_by = none;
  closed_at = none;
  created_at = some 0;
}

abbrev pub empty_db : Db
empty_db = record {
  users = [];
  roles = [];
  events = [];
  capas = [];
  documents = [];
  versions = [];
  changes = [];
  impacts = [];
  actions = [];
  audits = [];
  items = [];
  findings = [];
  employees = [];
  courses = [];
  records = [];
  groups = [];
  alerts = [];
  images = [];
  acknowledgements = [];
  notifications = [];
  settings = [];
  history = [];
}

abbrev pub one_event : Db
one_event = record empty_db { events = scratch ∷ [] }

abbrev pub env : Env
env = record { user = boss; today = date 2024 1 31; now = 1000; new_id = 11 }

abbrev pub session : Session
session = record { actor_id = some 1; reason = none }
