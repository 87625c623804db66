-- ===== src/Routes/Events/Effects.antt =====
-- What a request of app/api/routes/events.py writes, read off its code once for all the proofs.
use cron_qms.Prelude.{ℕ, String, ◌≡◌, refl, ◌∙◌, false, some, arith, Error, http, ok, >>=-eq-ok}
use cron_qms.Models.Event.{Event, EventStatus}
use cron_qms.Models.User.{User}
use cron_qms.Core.Audit.{Session}
use cron_qms.Core.Permissions.{
  event_create, event_update, event_change_status, event_approve_closure, event_reopen,
  event_delete,
}
use cron_qms.Db.{Db, Env, session_of}
use cron_qms.Services.EventWorkflow
use cron_qms.Services.EventWorkflow.{apply_status_transition, approve_closure}
use cron_qms.Routes.Access.{require, require_organization, require_organization-some}
use cron_qms.Routes.Scoped.Writes.{Write, SameOwner, saved_by, inserted_by, session_of-actor}
use cron_qms.Routes.Tables.{event_table}
use cron_qms.Routes.Events.{
  EventCreate, EventUpdate, get_event_in_org, target_date, new_event, updated, create_event,
  update_event, patch_event_status, close_event, reopen_event, delete_event, Request, create,
  update, patch_status, close, reopen, delete, handle,
}

updated-SameOwner :
    (p : EventUpdate) (e : Event) {e' : Event} → updated p e ≡ ok e' → SameOwner event_table e e'
unfolding updated
updated-SameOwner p e h = ground arith

reopen-Session :
    (s : Session) (e : Event) (reason : String) {r : Session × Event}
    → EventWorkflow.reopen s e reason ≡ ok r
    → ((r.0).actor_id ≡ s.actor_id) × ((r.0).reason ≡ some reason) × SameOwner event_table e r.1
unfolding EventWorkflow.reopen
reopen-Session s e reason h = ground arith

apply_status_transition-SameOwner :
    (e : Event) (status : EventStatus) {e' : Event}
    → apply_status_transition e status ≡ ok e'
    → SameOwner event_table e e'
unfolding apply_status_transition
apply_status_transition-SameOwner e status h = ground arith

approve_closure-SameOwner :
    (e : Event) (user : User) (now : ℕ) {e' : Event}
    → approve_closure e user now ≡ ok e'
    → SameOwner event_table e e'
unfolding approve_closure
approve_closure-SameOwner e user now h = ground arith

abbrev missing : Error
missing = http 404 "Event not found"

module _ (env : Env) (db : Db) {db' : Db} {e' : Event} where
  update-Write :
      (id : ℕ) (p : EventUpdate)
      → update_event env db id p ≡ ok (db', e')
      → Write event_table env db db' e'
  unfolding update_event
  update-Write id p h =
      let (_, _, h1) = >>=-eq-ok (require event_update env db) _ h in
      let (e, found, h2) = >>=-eq-ok (get_event_in_org env db id) _ h1 in
      let (e2, up, h3) = >>=-eq-ok (updated p e) _ h2 in
      saved_by event_table env db missing id (session_of env) e e2 found (session_of-actor env)
        (updated-SameOwner p e up) h3

  patch-Write :
      (id : ℕ) (status : EventStatus)
      → patch_event_status env db id status ≡ ok (db', e')
      → Write event_table env db db' e'
  unfolding patch_event_status
  patch-Write id status h =
      let (_, _, h1) = >>=-eq-ok (require event_change_status env db) _ h in
      let (e, found, h2) = >>=-eq-ok (get_event_in_org env db id) _ h1 in
      let (e2, up, h3) = >>=-eq-ok (apply_status_transition e status) _ h2 in
      saved_by event_table env db missing id (session_of env) e e2 found (session_of-actor env)
        (apply_status_transition-SameOwner e status up) h3

  close-Write : (id : ℕ) → close_event env db id ≡ ok (db', e') → Write event_table env db db' e'
  unfolding close_event
  close-Write id h =
      let (_, _, h1) = >>=-eq-ok (require event_approve_closure env db) _ h in
      let (e, found, h2) = >>=-eq-ok (get_event_in_org env db id) _ h1 in
      let (e2, up, h3) = >>=-eq-ok (approve_closure e env.user env.now) _ h2 in
      saved_by event_table env db missing id (session_of env) e e2 found (session_of-actor env)
        (approve_closure-SameOwner e env.user env.now up) h3

  reopen-Write :
      (id : ℕ) (reason : String)
      → reopen_event env db id reason ≡ ok (db', e')
      → Write event_table env db db' e'
  unfolding reopen_event
  reopen-Write id reason h =
      let (_, _, h1) = >>=-eq-ok (require event_reopen env db) _ h in
      let (e, found, h2) = >>=-eq-ok (get_event_in_org env db id) _ h1 in
      let (r, up, h3) = >>=-eq-ok (EventWorkflow.reopen (session_of env) e reason) _ h2 in
      let (actor, _, same) = reopen-Session (session_of env) e reason up in
      saved_by event_table env db missing id r.0 e r.1 found (actor ∙ session_of-actor env) same h3

  delete-Write : (id : ℕ) → delete_event env db id ≡ ok (db', e') → Write event_table env db db' e'
  unfolding delete_event
  delete-Write id h =
      let (_, _, h1) = >>=-eq-ok (require event_delete env db) _ h in
      let (e, found, h2) = >>=-eq-ok (get_event_in_org env db id) _ h1 in
      saved_by event_table env db missing id (session_of env) e (record e { is_active = false })
        found (session_of-actor env) (record { same_key = refl; same_org = refl }) h2

  create-Write :
      (p : EventCreate) → create_event env db p ≡ ok (db', e') → Write event_table env db db' e'
  unfolding create_event
  create-Write p h =
      let (_, _, h1) = >>=-eq-ok (require event_create env db) _ h in
      let (o, own, h2) = >>=-eq-ok (require_organization env) _ h1 in
      let (target, _, h3) = >>=-eq-ok (target_date env p) _ h2 in
      inserted_by event_table env db (new_event env p o target) (require_organization-some env own)
        refl h3

  -- Every request that succeeds inserts one event of the caller's organization, or saves one that it
  -- found there.
  pub handle-Write :
      (r : Request) → handle env db r ≡ ok (db', e') → Write event_table env db db' e'
  unfolding handle
  handle-Write (create p) h = create-Write p h
  handle-Write (update id p) h = update-Write id p h
  handle-Write (patch_status id status) h = patch-Write id status h
  handle-Write (close id) h = close-Write id h
  handle-Write (reopen id reason) h = reopen-Write id reason h
  handle-Write (delete id) h = delete-Write id h
