-- ===== src/Routes/Changes/ActionEffects.antt =====
-- What the requests for the actions of a change do to the table of actions.
use cron_qms.Prelude.{ℕ, ◌≡◌, refl, arith, List, Error, http, ok, >>=-eq-ok}
use cron_qms.Models.Change.{ChangeRequest, ChangeAction}
use cron_qms.Core.Permissions.{change_assess}
use cron_qms.Db.{Db, Env}
use cron_qms.Routes.Access.{require}
use cron_qms.Routes.Scoped.Trail.{IsAudited}
use cron_qms.Routes.Scoped.Removals.{Effect}
use cron_qms.Routes.Tables.More.{change_table, action_table}
use cron_qms.Routes.Nested.Owned.{Owned}
use cron_qms.Routes.Nested.Writes.{child_inserted, child_saved, child_removed}
use cron_qms.Routes.Changes.{get_change_in_org}
use cron_qms.Routes.Changes.Effects.{change_visible}
use cron_qms.Routes.Changes.Actions.{
  ActionCreate, ActionUpdate, get_action_in_change, new_action, add_action, updated_action,
  update_action, delete_action,
}

abbrev missing : Error
missing = http 404 "Action not found"

-- An action stays with its change and in its organization.
record SamePlace (a a' : ChangeAction) : Type 0 where
  pub same_id : a'.id ≡ a.id
  pub same_change : a'.change_id ≡ a.change_id
  pub same_org : a'.organization_id ≡ a.organization_id

updated_action-SamePlace :
    (db : Db) (p : ActionUpdate) (c : ChangeRequest) (a : ChangeAction) {a' : ChangeAction}
    → updated_action db p c a ≡ ok a'
    → SamePlace a a'
unfolding updated_action
updated_action-SamePlace db p c a h = ground arith

-- The actions are of the organizations of their changes.
abbrev pub ActionsOwned : List ChangeRequest → List ChangeAction → Type 0
ActionsOwned = Owned change_table (λ (a : ChangeAction). a.change_id) (λ a. a.organization_id)

module _ (env : Env) (db : Db) {db' : Db} {fresh : Type 0} (id : ℕ)
    (owned : ActionsOwned db.changes db.actions) where
  pub add-Effect :
      (p : ActionCreate) {a' : ChangeAction}
      → fresh
      → IsAudited change_table db
      → add_action env db id p ≡ ok (db', a')
      → Effect action_table fresh env db db' × ActionsOwned db.changes db'.actions
  unfolding add_action new_action
  add-Effect p is_fresh audited h =
      let (_, _, h1) = >>=-eq-ok (require change_assess env db) _ h in
      let (c, found, h2) = >>=-eq-ok (get_change_in_org env db id) _ h1 in
      child_inserted change_table action_table (λ a. a.change_id) (λ a. refl) env db id
        (change_visible env db id found) (new_action env c p) is_fresh audited owned refl refl refl
        h2

  pub update-Effect :
      (action_id : ℕ) (p : ActionUpdate) {a' : ChangeAction}
      → IsAudited action_table db
      → update_action env db id action_id p ≡ ok (db', a')
      → Effect action_table fresh env db db' × ActionsOwned db.changes db'.actions
  unfolding update_action
  update-Effect action_id p audited h =
      let (_, _, h1) = >>=-eq-ok (require change_assess env db) _ h in
      let (c, found, h2) = >>=-eq-ok (get_change_in_org env db id) _ h1 in
      let (a, is_child, h3) = >>=-eq-ok (get_action_in_change db c action_id) _ h2 in
      let (a2, up, h4) = >>=-eq-ok (updated_action db p c a) _ h3 in
      let same = updated_action-SamePlace db p c a up in
      child_saved change_table action_table (λ a. a.change_id) (λ a. refl) env db id
        (change_visible env db id found) missing action_id audited owned is_child a2
        (record { same_key = same.same_id; same_org = same.same_org }) same.same_change h4

  pub delete-Effect :
      (action_id : ℕ)
      → IsAudited action_table db
      → delete_action env db id action_id ≡ ok db'
      → Effect action_table fresh env db db' × ActionsOwned db.changes db'.actions
  unfolding delete_action
  delete-Effect action_id audited h =
      let (_, _, h1) = >>=-eq-ok (require change_assess env db) _ h in
      let (c, found, h2) = >>=-eq-ok (get_change_in_org env db id) _ h1 in
      let (a, is_child, h3) = >>=-eq-ok (get_action_in_change db c action_id) _ h2 in
      child_removed change_table action_table (λ a. a.change_id) (λ a. refl) env db id
        (change_visible env db id found) missing action_id audited owned is_child h3
