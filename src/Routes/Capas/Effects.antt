-- ===== src/Routes/Capas/Effects.antt =====
-- What a request of app/api/routes/capas.py writes, read off its code once for all the proofs.
use cron_qms.Prelude.{
  ℕ, String, ◌≡◌, refl, subst, ◌∙◌, some, none, arith, Option, Result, Error, http, ok, >>=-eq-ok,
  ok-pair,
}
use cron_qms.Dates.{Date}
use cron_qms.Models.User.{User}
use cron_qms.Models.Capa.{Capa, CapaStatus, VerificationOutcome, draft, pending}
use cron_qms.Core.Audit.{Session}
use cron_qms.Core.Permissions.{capa_create, capa_update, capa_verify, capa_reopen, capa_cancel}
use cron_qms.Db.{Db, Env, session_of}
use cron_qms.Services.CapaWorkflow
use cron_qms.Services.CapaWorkflow.{apply_status_transition, verify_effectiveness}
use cron_qms.Routes.Access.{require, require_organization, require_organization-some}
use cron_qms.Routes.Scoped.{save}
use cron_qms.Routes.Scoped.Writes.{Write, SameOwner, saved_by, inserted_by, session_of-actor}
use cron_qms.Routes.Tables.{capa_table}
use cron_qms.Routes.Capas.{
  CapaCreate, CapaUpdate, get_capa_in_org, resolve_events, new_capa, create_capa, updated,
  update_capa, patch_capa_status, verify_capa, reopen_capa, cancel_capa, Request, create, update,
  patch_status, verify, reopen, cancel, handle,
}

-- A CAPA as it is opened.
pub record IsNew (env : Env) (c : Capa) : Type 0 where
  pub is_draft : c.status ≡ draft
  pub is_pending : c.verification_outcome ≡ pending
  pub not_dated : c.verification_date ≡ none
  pub not_verified : c.verified_by ≡ none
  pub created_by_caller : c.created_by ≡ env.user.id

-- An edit leaves the workflow's columns alone.
pub record IsEdit (c c' : Capa) : Type 0 where
  pub same_status : c'.status ≡ c.status
  pub same_outcome : c'.verification_outcome ≡ c.verification_outcome
  pub same_date : c'.verification_date ≡ c.verification_date
  pub same_verifier : c'.verified_by ≡ c.verified_by

-- How a request changes the CAPA that it found.
pub data Change (env : Env) (c c' : Capa) : Type 0 where
  edited : IsEdit c c' → Change env c c'
  moved : (s : CapaStatus) → apply_status_transition c s ≡ ok c' → Change env c c'
  judged :
      (db : Session) (outcome : VerificationOutcome) (given : Option Date) (reason : Option String)
      (db' : Session)
      → ◌≡◌ {A = Result (Session × Capa)}
          (verify_effectiveness db c env.user outcome given reason env.today)
          (ok (db', c'))
      → Change env c c'
  reopened :
      (db : Session) (reason : String) (db' : Session)
      → ◌≡◌ {A = Result (Session × Capa)} (CapaWorkflow.reopen db c reason) (ok (db', c'))
      → Change env c c'
  given_up :
      (db : Session) (reason : String) (db' : Session)
      → ◌≡◌ {A = Result (Session × Capa)} (CapaWorkflow.cancel db c reason) (ok (db', c'))
      → Change env c c'

pub data Origin (env : Env) (db : Db) (c' : Capa) : Type 0 where
  created : IsNew env c' → Origin env db c'
  changed :
      (id : ℕ) (c : Capa) → get_capa_in_org env db id ≡ ok c → Change env c c' → Origin env db c'

updated-IsEdit :
    (db : Db) (p : CapaUpdate) (c : Capa) {c' : Capa}
    → updated db p c ≡ ok c'
    → SameOwner capa_table c c' × IsEdit c c'
unfolding updated
updated-IsEdit db p c h = ground arith

move-SameOwner :
    (c : Capa) (s : CapaStatus) {c' : Capa}
    → apply_status_transition c s ≡ ok c'
    → SameOwner capa_table c c'
unfolding apply_status_transition
move-SameOwner c s h = ground arith

module _ (db : Session) (c : Capa) {r : Session × Capa} where
  verify-SameOwner :
      (user : User) (outcome : VerificationOutcome) (given : Option Date) (reason : Option String)
      (today : Date)
      → verify_effectiveness db c user outcome given reason today ≡ ok r
      → ((r.0).actor_id ≡ db.actor_id) × SameOwner capa_table c r.1
  unfolding verify_effectiveness
  verify-SameOwner user outcome given reason today h = ground arith

  reopen-SameOwner :
      (reason : String)
      → CapaWorkflow.reopen db c reason ≡ ok r
      → ((r.0).actor_id ≡ db.actor_id) × SameOwner capa_table c r.1
  unfolding CapaWorkflow.reopen
  reopen-SameOwner reason h = ground arith

  cancel-SameOwner :
      (reason : String)
      → CapaWorkflow.cancel db c reason ≡ ok r
      → ((r.0).actor_id ≡ db.actor_id) × SameOwner capa_table c r.1
  unfolding CapaWorkflow.cancel
  cancel-SameOwner reason h = ground arith

abbrev pub missing : Error
missing = http 404 "CAPA not found"

-- What a request writes, and where the row that it writes comes from.
abbrev pub Effect : Env → Db → Db → Capa → Type 0
Effect env db db' c' = Write capa_table env db db' c' × Origin env db c'

module _ (env : Env) (db : Db) {db' : Db} {c' : Capa} where
  changes :
      (id : ℕ) (s : Session) (c c2 : Capa)
      → get_capa_in_org env db id ≡ ok c
      → s.actor_id ≡ some env.user.id
      → SameOwner capa_table c c2
      → Change env c c2
      → ◌≡◌ {A = Result (Db × Capa)} (ok (save capa_table env s db c c2, c2)) (ok (db', c'))
      → Effect env db db' c'
  changes id s c c2 found actor same change h =
      let (_, is) = ok-pair (save capa_table env s db c c2) db' c2 c' h in
      (
        saved_by capa_table env db missing id s c c2 found actor same h,
        changed id c found (subst (Change env c) is change),
      )

  create-Effect : (p : CapaCreate) → create_capa env db p ≡ ok (db', c') → Effect env db db' c'
  unfolding create_capa
  create-Effect p h =
      let (_, _, h1) = >>=-eq-ok (require capa_create env db) _ h in
      let (o, own, h2) = >>=-eq-ok (require_organization env) _ h1 in
      let (ids, _, h3) = >>=-eq-ok (resolve_events db p.event_ids o) _ h2 in
      let c2 = new_capa env p o ids in
      let is : c2 ≡ c' = ground arith in
      (
        inserted_by capa_table env db c2 (require_organization-some env own) refl h3,
        created (
            subst (IsNew env) is (record {
              is_draft = refl;
              is_pending = refl;
              not_dated = refl;
              not_verified = refl;
              created_by_caller = refl;
            })),
      )

  update-Effect :
      (id : ℕ) (p : CapaUpdate) → update_capa env db id p ≡ ok (db', c') → Effect env db db' c'
  unfolding update_capa
  update-Effect id p h =
      let (_, _, h1) = >>=-eq-ok (require capa_update env db) _ h in
      let (c, found, h2) = >>=-eq-ok (get_capa_in_org env db id) _ h1 in
      let (c2, up, h3) = >>=-eq-ok (updated db p c) _ h2 in
      let (same, edit) = updated-IsEdit db p c up in
      changes id (session_of env) c c2 found (session_of-actor env) same (edited edit) h3

  patch-Effect :
      (id : ℕ) (s : CapaStatus)
      → patch_capa_status env db id s ≡ ok (db', c')
      → Effect env db db' c'
  unfolding patch_capa_status
  patch-Effect id s h =
      let (_, _, h1) = >>=-eq-ok (require capa_update env db) _ h in
      let (c, found, h2) = >>=-eq-ok (get_capa_in_org env db id) _ h1 in
      let (c2, up, h3) = >>=-eq-ok (apply_status_transition c s) _ h2 in
      changes id (session_of env) c c2 found (session_of-actor env) (move-SameOwner c s up)
        (moved s up) h3

  verify-Effect :
      (id : ℕ) (outcome : VerificationOutcome) (given : Option Date) (reason : Option String)
      → verify_capa env db id outcome given reason ≡ ok (db', c')
      → Effect env db db' c'
  unfolding verify_capa
  verify-Effect id outcome given reason h =
      let s = session_of env in
      let (_, _, h1) = >>=-eq-ok (require capa_verify env db) _ h in
      let (c, found, h2) = >>=-eq-ok (get_capa_in_org env db id) _ h1 in
      let (r, up, h3) =
        >>=-eq-ok (verify_effectiveness s c env.user outcome given reason env.today) _ h2 in
      let (actor, same) = verify-SameOwner s c env.user outcome given reason env.today up in
      changes id r.0 c r.1 found (actor ∙ session_of-actor env) same
        (judged s outcome given reason r.0 up) h3

  reopen-Effect :
      (id : ℕ) (reason : String)
      → reopen_capa env db id reason ≡ ok (db', c')
      → Effect env db db' c'
  unfolding reopen_capa
  reopen-Effect id reason h =
      let s = session_of env in
      let (_, _, h1) = >>=-eq-ok (require capa_reopen env db) _ h in
      let (c, found, h2) = >>=-eq-ok (get_capa_in_org env db id) _ h1 in
      let (r, up, h3) = >>=-eq-ok (CapaWorkflow.reopen s c reason) _ h2 in
      let (actor, same) = reopen-SameOwner s c reason up in
      changes id r.0 c r.1 found (actor ∙ session_of-actor env) same (reopened s reason r.0 up) h3

  cancel-Effect :
      (id : ℕ) (reason : String)
      → cancel_capa env db id reason ≡ ok (db', c')
      → Effect env db db' c'
  unfolding cancel_capa
  cancel-Effect id reason h =
      let s = session_of env in
      let (_, _, h1) = >>=-eq-ok (require capa_cancel env db) _ h in
      let (c, found, h2) = >>=-eq-ok (get_capa_in_org env db id) _ h1 in
      let (r, up, h3) = >>=-eq-ok (CapaWorkflow.cancel s c reason) _ h2 in
      let (actor, same) = cancel-SameOwner s c reason up in
      changes id r.0 c r.1 found (actor ∙ session_of-actor env) same (given_up s reason r.0 up) h3

  pub handle-Effect : (r : Request) → handle env db r ≡ ok (db', c') → Effect env db db' c'
  unfolding handle
  handle-Effect (create p) h = create-Effect p h
  handle-Effect (update id p) h = update-Effect id p h
  handle-Effect (patch_status id s) h = patch-Effect id s h
  handle-Effect (verify id outcome given reason) h = verify-Effect id outcome given reason h
  handle-Effect (reopen id reason) h = reopen-Effect id reason h
  handle-Effect (cancel id reason) h = cancel-Effect id reason h
