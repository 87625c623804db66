-- ===== src/Routes/Capas.antt =====
-- app/api/routes/capas.py
pub mod Effects
pub mod Verification
pub mod Scope
use cron_qms.Prelude.{
  ℕ, String, Bool, true, false, not, ◌&&◌, Option, none, some, List, [], ◌∷◌, map, filter, any,
  ◌==◌, or_else, if◌then◌else◌, Result, ok, err, http, crash, raise_if, ◌>>=◌, ◌>>◌,
}
use cron_qms.Dates.{Date}
use cron_qms.Models.Event.{Event}
use cron_qms.Models.Capa.{Capa, CapaStatus, draft, VerificationOutcome, pending}
use cron_qms.Core.Permissions.{
  capa_create, capa_read, capa_update, capa_verify, capa_reopen, capa_cancel,
}
use cron_qms.Db.{Db, Env, session_of}
use cron_qms.Services.CapaWorkflow
use cron_qms.Routes.Scoped.{get_in_org, save, insert}
use cron_qms.Routes.Tables.{capa_table}
use cron_qms.Routes.Access.{
  require, require_organization, Field, unset, sent, assign, assign_required,
}

pub record CapaCreate : Type 0 where
  pub title : String
  pub initiating_cause : Option String
  pub containment_actions : Option String
  pub root_cause : Option String
  pub root_cause_category : Option String
  pub rca_method : Option String
  pub corrective_action : Option String
  pub preventive_action : Option String
  pub owner_id : Option ℕ
  pub due_date : Option Date
  pub event_ids : List ℕ

pub record CapaUpdate : Type 0 where
  pub title : Field String
  pub initiating_cause : Field String
  pub containment_actions : Field String
  pub root_cause : Field String
  pub root_cause_category : Field String
  pub rca_method : Field String
  pub corrective_action : Field String
  pub preventive_action : Field String
  pub owner_id : Field ℕ
  pub due_date : Field Date
  pub event_ids : Field (List ℕ)

-- `_get_capa_in_org`
abbrev pub get_capa_in_org : Env → Db → ℕ → Result Capa
get_capa_in_org = get_in_org capa_table (http 404 "CAPA not found")

-- The events of the query of `_resolve_events`, by their ids
unfoldable pub known_events : List Event → List ℕ → ℕ → List ℕ
known_events events event_ids organization_id =
    map (λ e. e.id)
      (filter
        (λ e.
          any (λ i. i == e.id) event_ids && (e.organization_id == organization_id) && e.is_active)
        events)

-- `set(event_ids) - found` is not empty
unfoldable pub some_missing : List ℕ → List ℕ → Bool
some_missing event_ids found = any (λ i. not (any (λ j. j == i) found)) event_ids

-- `_resolve_events`; the message lists the missing ids there.
unfoldable pub resolve_events : Db → List ℕ → ℕ → Result (List ℕ)
unfolding known_events some_missing
resolve_events db [] organization_id = ok []
resolve_events db (i ∷ is) organization_id =
    let found = known_events db.events (i ∷ is) organization_id in
    if some_missing (i ∷ is) found
    then err (http 400 "Events not found in your organization")
    else ok found

new_capa : Env → CapaCreate → ℕ → List ℕ → Capa
new_capa env p organization_id event_ids = record {
  id = env.new_id;
  organization_id = organization_id;
  title = p.title;
  status = draft;
  initiating_cause = p.initiating_cause;
  containment_actions = p.containment_actions;
  root_cause = p.root_cause;
  root_cause_category = p.root_cause_category;
  rca_method = p.rca_method;
  corrective_action = p.corrective_action;
  preventive_action = p.preventive_action;
  owner_id = p.owner_id;
  due_date = p.due_date;
  verification_date = none;
  verification_outcome = pending;
  verified_by = none;
  created_by = env.user.id;
  is_active = true;
  event_ids = event_ids;
}

unfoldable pub create_capa : Env → Db → CapaCreate → Result (Db × Capa)
unfolding new_capa
create_capa env db p = do
  require capa_create env db
  organization_id ← require_organization env
  event_ids ← resolve_events db p.event_ids organization_id
  let c = new_capa env p organization_id event_ids
  ok (insert capa_table env (session_of env) db c, c)

unfoldable pub get_capa : Env → Db → ℕ → Result Capa
get_capa env db capa_id = do require capa_read env db; get_capa_in_org env db capa_id

-- `if "event_ids" in update_data`, where null stands for no events
unfoldable pub updated_events : Db → Field (List ℕ) → Capa → Result (List ℕ)
updated_events db unset c = ok c.event_ids
updated_events db (sent ids) c = resolve_events db (or_else ids []) c.organization_id

-- The events, and the loop of `setattr` over `_SCALAR_FIELDS`
unfoldable pub updated : Db → CapaUpdate → Capa → Result Capa
unfolding updated_events
updated db p c = do
  event_ids ← updated_events db p.event_ids c
  title ← assign_required p.title c.title
  ok (record c {
    title = title;
    initiating_cause = assign p.initiating_cause c.initiating_cause;
    containment_actions = assign p.containment_actions c.containment_actions;
    root_cause = assign p.root_cause c.root_cause;
    root_cause_category = assign p.root_cause_category c.root_cause_category;
    rca_method = assign p.rca_method c.rca_method;
    corrective_action = assign p.corrective_action c.corrective_action;
    preventive_action = assign p.preventive_action c.preventive_action;
    owner_id = assign p.owner_id c.owner_id;
    due_date = assign p.due_date c.due_date;
    event_ids = event_ids;
  })

unfoldable pub update_capa : Env → Db → ℕ → CapaUpdate → Result (Db × Capa)
update_capa env db capa_id p = do
  require capa_update env db
  c ← get_capa_in_org env db capa_id
  c' ← updated db p c
  ok (save capa_table env (session_of env) db c c', c')

unfoldable pub patch_capa_status : Env → Db → ℕ → CapaStatus → Result (Db × Capa)
patch_capa_status env db capa_id status = do
  require capa_update env db
  c ← get_capa_in_org env db capa_id
  c' ← CapaWorkflow.apply_status_transition c status
  ok (save capa_table env (session_of env) db c c', c')

unfoldable pub verify_capa :
    Env → Db → ℕ → VerificationOutcome → Option Date → Option String → Result (Db × Capa)
verify_capa env db capa_id outcome verification_date reason = do
  require capa_verify env db
  c ← get_capa_in_org env db capa_id
  r ←
      CapaWorkflow.verify_effectiveness (session_of env) c env.user outcome verification_date reason
        env.today
  ok (save capa_table env r.0 db c r.1, r.1)

unfoldable pub reopen_capa : Env → Db → ℕ → String → Result (Db × Capa)
reopen_capa env db capa_id reason = do
  require capa_reopen env db
  c ← get_capa_in_org env db capa_id
  r ← CapaWorkflow.reopen (session_of env) c reason
  ok (save capa_table env r.0 db c r.1, r.1)

unfoldable pub cancel_capa : Env → Db → ℕ → String → Result (Db × Capa)
cancel_capa env db capa_id reason = do
  require capa_cancel env db
  c ← get_capa_in_org env db capa_id
  r ← CapaWorkflow.cancel (session_of env) c reason
  ok (save capa_table env r.0 db c r.1, r.1)

-- The requests that write.
pub data Request : Type 0 where
  create : CapaCreate → Request
  update : ℕ → CapaUpdate → Request
  patch_status : ℕ → CapaStatus → Request
  verify : ℕ → VerificationOutcome → Option Date → Option String → Request
  reopen cancel : ℕ → String → Request

unfoldable pub handle : Env → Db → Request → Result (Db × Capa)
unfolding create_capa update_capa patch_capa_status verify_capa reopen_capa cancel_capa
handle env db (create p) = create_capa env db p
handle env db (update id p) = update_capa env db id p
handle env db (patch_status id s) = patch_capa_status env db id s
handle env db (verify id outcome given reason) = verify_capa env db id outcome given reason
handle env db (reopen id reason) = reopen_capa env db id reason
handle env db (cancel id reason) = cancel_capa env db id reason
