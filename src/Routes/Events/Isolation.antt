-- ===== src/Routes/Events/Isolation.antt =====
-- Organizations do not reach one another through app/api/routes/events.py.
use cron_qms.Prelude.{◌≡◌, ap, ok}
use cron_qms.Models.Event.{Event}
use cron_qms.Db.{Db, Env}
use cron_qms.Routes.Scoped.{save, insert}
use cron_qms.Routes.Scoped.Writes.{Write, inserted, saved, foreign, Write-isolated}
use cron_qms.Routes.Tables.{event_table}
use cron_qms.Routes.Events.{Request, handle}
use cron_qms.Routes.Events.Effects.{handle-Write}

-- The tables that the handlers of events only read.
pub record SameOthers (db db' : Db) : Type 0 where
  pub same_users : db'.users ≡ db.users
  pub same_roles : db'.roles ≡ db.roles
  pub same_capas : db'.capas ≡ db.capas
  pub same_documents : db'.documents ≡ db.documents
  pub same_versions : db'.versions ≡ db.versions
  pub same_changes : db'.changes ≡ db.changes
  pub same_impacts : db'.impacts ≡ db.impacts
  pub same_actions : db'.actions ≡ db.actions
  pub same_audits : db'.audits ≡ db.audits
  pub same_items : db'.items ≡ db.items
  pub same_findings : db'.findings ≡ db.findings
  pub same_employees : db'.employees ≡ db.employees
  pub same_courses : db'.courses ≡ db.courses
  pub same_records : db'.records ≡ db.records
  pub same_groups : db'.groups ≡ db.groups
  pub same_alerts : db'.alerts ≡ db.alerts
  pub same_images : db'.images ≡ db.images
  pub same_acknowledgements : db'.acknowledgements ≡ db.acknowledgements
  pub same_notifications : db'.notifications ≡ db.notifications
  pub same_settings : db'.settings ≡ db.settings

Write-SameOthers :
    (env : Env) (db db' : Db) (e : Event) → Write event_table env db db' e → SameOthers db db'
unfolding save insert
Write-SameOthers env db db' e (inserted own is_new writes) = record {
  same_users = ap (λ (d : Db). d.users) writes;
  same_roles = ap (λ (d : Db). d.roles) writes;
  same_capas = ap (λ (d : Db). d.capas) writes;
  same_documents = ap (λ (d : Db). d.documents) writes;
  same_versions = ap (λ (d : Db). d.versions) writes;
  same_changes = ap (λ (d : Db). d.changes) writes;
  same_impacts = ap (λ (d : Db). d.impacts) writes;
  same_actions = ap (λ (d : Db). d.actions) writes;
  same_audits = ap (λ (d : Db). d.audits) writes;
  same_items = ap (λ (d : Db). d.items) writes;
  same_findings = ap (λ (d : Db). d.findings) writes;
  same_employees = ap (λ (d : Db). d.employees) writes;
  same_courses = ap (λ (d : Db). d.courses) writes;
  same_records = ap (λ (d : Db). d.records) writes;
  same_groups = ap (λ (d : Db). d.groups) writes;
  same_alerts = ap (λ (d : Db). d.alerts) writes;
  same_images = ap (λ (d : Db). d.images) writes;
  same_acknowledgements = ap (λ (d : Db). d.acknowledgements) writes;
  same_notifications = ap (λ (d : Db). d.notifications) writes;
  same_settings = ap (λ (d : Db). d.settings) writes;
}
Write-SameOthers env db db' e (saved id s old is_found actor same writes) = record {
  same_users = ap (λ (d : Db). d.users) writes;
  same_roles = ap (λ (d : Db). d.roles) writes;
  same_capas = ap (λ (d : Db). d.capas) writes;
  same_documents = ap (λ (d : Db). d.documents) writes;
  same_versions = ap (λ (d : Db). d.versions) writes;
  same_changes = ap (λ (d : Db). d.changes) writes;
  same_impacts = ap (λ (d : Db). d.impacts) writes;
  same_actions = ap (λ (d : Db). d.actions) writes;
  same_audits = ap (λ (d : Db). d.audits) writes;
  same_items = ap (λ (d : Db). d.items) writes;
  same_findings = ap (λ (d : Db). d.findings) writes;
  same_employees = ap (λ (d : Db). d.employees) writes;
  same_courses = ap (λ (d : Db). d.courses) writes;
  same_records = ap (λ (d : Db). d.records) writes;
  same_groups = ap (λ (d : Db). d.groups) writes;
  same_alerts = ap (λ (d : Db). d.alerts) writes;
  same_images = ap (λ (d : Db). d.images) writes;
  same_acknowledgements = ap (λ (d : Db). d.acknowledgements) writes;
  same_notifications = ap (λ (d : Db). d.notifications) writes;
  same_settings = ap (λ (d : Db). d.settings) writes;
}

-- Whatever the request that succeeds, the events of other organizations stay as they are, and so
-- does every other table but the audit trail.
pub handle-isolated :
    (env : Env) (db : Db) (r : Request) {db' : Db} {e : Event}
    → handle env db r ≡ ok (db', e)
    → (foreign event_table env db'.events ≡ foreign event_table env db.events) × SameOthers db db'
handle-isolated env db r {db'} {e} h =
    let writes = handle-Write env db r h in
    (Write-isolated event_table env db db' e writes, Write-SameOthers env db db' e writes)
