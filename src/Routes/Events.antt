-- ===== src/Routes/Events.antt =====
-- app/api/routes/events.py
pub mod Isolation
pub mod Trail
pub mod Effects
use cron_qms.Prelude.{
  ℕ, String, Bool, true, false, not, ◌&&◌, Option, none, some, List, [], ◌∷◌, ◌++◌, or_else,
  is_none, if◌then◌else◌, ◌==◌, first, overwrite, Result, ok, err, http, raise_if, or_raise, ◌>>=◌,
  ◌>>◌,
}
use cron_qms.Dates.{Date}
use cron_qms.Models.Event.{
  Event, EventStatus, EventType, EventPriority, opened, priority_value, audit_fields,
}
use cron_qms.Core.Audit.{Session, Target, after_insert, after_update}
use cron_qms.Core.Permissions.{
  event_create, event_read, event_update, event_change_status, event_approve_closure, event_reopen,
  event_delete,
}
use cron_qms.Core.Sla.{sla_target}
use cron_qms.Db.{Db, Env, session_of}
use cron_qms.Services.EventWorkflow
use cron_qms.Routes.Scoped.{get_in_org, save, insert}
use cron_qms.Routes.Tables.{event_table}
use cron_qms.Routes.Access.{
  require, require_organization, in_org, Field, unset, sent, assign, assign_required,
}

pub record EventCreate : Type 0 where
  pub title : String
  pub description : Option String
  pub event_type : EventType
  pub priority : EventPriority
  pub assigned_to : Option ℕ
  pub site_id : Option ℕ
  pub target_close_date : Option Date
  pub product_part_number : Option String
  pub lot_batch : Option String
  pub supplier : Option String
  pub work_order : Option String
  pub machine : Option String

pub record EventUpdate : Type 0 where
  pub title : Field String
  pub description : Field String
  pub event_type : Field EventType
  pub status : Field EventStatus
  pub priority : Field EventPriority
  pub assigned_to : Field ℕ
  pub site_id : Field ℕ
  pub target_close_date : Field Date
  pub product_part_number : Field String
  pub lot_batch : Field String
  pub supplier : Field String
  pub work_order : Field String
  pub machine : Field String

-- `_get_event_in_org`
abbrev pub get_event_in_org : Env → Db → ℕ → Result Event
get_event_in_org = get_in_org event_table (http 404 "Event not found")

-- `event_data.target_close_date or sla_target(...)`
unfoldable pub target_date : Env → EventCreate → Result Date
target_date env p = elim p.target_close_date [
  | some d ↦ ok d
  | none ↦ sla_target p.priority env.today
]

new_event : Env → EventCreate → ℕ → Date → Event
new_event env p organization_id target = record {
  id = env.new_id;
  title = p.title;
  description = p.description;
  event_type = p.event_type;
  status = opened;
  priority = priority_value p.priority;
  assigned_to = p.assigned_to;
  assigned_group_id = none;
  organization_id = organization_id;
  site_id = p.site_id;
  target_close_date = some target;
  product_part_number = p.product_part_number;
  lot_batch = p.lot_batch;
  supplier = p.supplier;
  work_order = p.work_order;
  machine = p.machine;
  is_active = true;
  reported_by = env.user.id;
  closed_by = none;
  closed_at = none;
  created_at = some env.now;
}

unfoldable pub create_event : Env → Db → EventCreate → Result (Db × Event)
unfolding new_event
create_event env db p = do
  require event_create env db
  organization_id ← require_organization env
  target ← target_date env p
  let e = new_event env p organization_id target
  ok (insert event_table env (session_of env) db e, e)

unfoldable pub get_event : Env → Db → ℕ → Result Event
get_event env db event_id = do require event_read env db; get_event_in_org env db event_id

-- `update_data["priority"].value`
abbrev priority_text : Field EventPriority → Field String
priority_text unset = unset
priority_text (sent none) = sent none
priority_text (sent (some p)) = sent (some (priority_value p))

-- The loop of `setattr` over the fields that were sent
unfoldable pub updated : EventUpdate → Event → Result Event
updated p e = do
  title ← assign_required p.title e.title
  event_type ← assign_required p.event_type e.event_type
  status ← assign_required p.status e.status
  priority ← assign_required (priority_text p.priority) e.priority
  ok (record e {
    title = title;
    description = assign p.description e.description;
    event_type = event_type;
    status = status;
    priority = priority;
    assigned_to = assign p.assigned_to e.assigned_to;
    site_id = assign p.site_id e.site_id;
    target_close_date = assign p.target_close_date e.target_close_date;
    product_part_number = assign p.product_part_number e.product_part_number;
    lot_batch = assign p.lot_batch e.lot_batch;
    supplier = assign p.supplier e.supplier;
    work_order = assign p.work_order e.work_order;
    machine = assign p.machine e.machine;
  })

unfoldable pub update_event : Env → Db → ℕ → EventUpdate → Result (Db × Event)
update_event env db event_id p = do
  require event_update env db
  e ← get_event_in_org env db event_id
  e' ← updated p e
  ok (save event_table env (session_of env) db e e', e')

unfoldable pub patch_event_status : Env → Db → ℕ → EventStatus → Result (Db × Event)
patch_event_status env db event_id status = do
  require event_change_status env db
  e ← get_event_in_org env db event_id
  e' ← EventWorkflow.apply_status_transition e status
  ok (save event_table env (session_of env) db e e', e')

unfoldable pub close_event : Env → Db → ℕ → Result (Db × Event)
close_event env db event_id = do
  require event_approve_closure env db
  e ← get_event_in_org env db event_id
  e' ← EventWorkflow.approve_closure e env.user env.now
  ok (save event_table env (session_of env) db e e', e')

unfoldable pub reopen_event : Env → Db → ℕ → String → Result (Db × Event)
reopen_event env db event_id reason = do
  require event_reopen env db
  e ← get_event_in_org env db event_id
  result ← EventWorkflow.reopen (session_of env) e reason
  ok (save event_table env result.0 db e result.1, result.1)

unfoldable pub delete_event : Env → Db → ℕ → Result (Db × Event)
delete_event env db event_id = do
  require event_delete env db
  e ← get_event_in_org env db event_id
  let e' = record e { is_active = false }
  ok (save event_table env (session_of env) db e e', e')

-- The requests that write.
pub data Request : Type 0 where
  create : EventCreate → Request
  update : ℕ → EventUpdate → Request
  patch_status : ℕ → EventStatus → Request
  close : ℕ → Request
  reopen : ℕ → String → Request
  delete : ℕ → Request

unfoldable pub handle : Env → Db → Request → Result (Db × Event)
unfolding create_event update_event patch_event_status close_event reopen_event delete_event
handle env db (create p) = create_event env db p
handle env db (update id p) = update_event env db id p
handle env db (patch_status id s) = patch_event_status env db id s
handle env db (close id) = close_event env db id
handle env db (reopen id reason) = reopen_event env db id reason
handle env db (delete id) = delete_event env db id
