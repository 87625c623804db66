-- ===== src/Routes/Changes/ImpactEffects.antt =====
-- What the requests for the impacts of a change do to the table of impacts.
use cron_qms.Prelude.{
  ℕ, ◌≡◌, refl, sym, ap, subst, ◌∙◌, not, List, ◌==◌, Error, http, ok, ok-injective, All-filter,
  >>=-eq-ok,
}
use cron_qms.Models.Change.{ChangeRequest, ChangeImpact}
use cron_qms.Core.Permissions.{change_assess}
use cron_qms.Db.{Db, Env, session_of}
use cron_qms.Routes.Access.{require}
use cron_qms.Routes.Scoped.Trail.{IsAudited}
use cron_qms.Routes.Scoped.Removals.{IsScoped, Effect-IsScoped, Effect-others}
use cron_qms.Routes.Scoped.Ends.{unaudited-IsScoped}
use cron_qms.Routes.Scoped.Trail.{IsNewKey}
use cron_qms.Routes.Tables.More.{change_table}
use cron_qms.Routes.Tables.Unaudited.{impact_table, impact-insert, impact-save}
use cron_qms.Routes.Nested.Owned.{Owned, OwnedBy}
use cron_qms.Routes.Nested.Writes.{child_inserted, child_saved, child_of}
use cron_qms.Routes.Changes.{get_change_in_org}
use cron_qms.Routes.Changes.Effects.{change_visible}
use cron_qms.Routes.Changes.Impacts.{
  ImpactCreate, ImpactUpdate, get_impact_in_change, new_impact, add_impact, updated_impact,
  update_impact, delete_impact,
}

abbrev missing : Error
missing = http 404 "Impact assessment not found"

-- The impacts are of the organizations of their changes.
abbrev pub ImpactsOwned : List ChangeRequest → List ChangeImpact → Type 0
ImpactsOwned = Owned change_table (λ (i : ChangeImpact). i.change_id) (λ i. i.organization_id)

-- The table of impacts is written, and no other.
pub record IsAssessed (env : Env) (db db' : Db) : Type 0 where
  pub scoped : IsScoped impact_table env db db'
  pub owned : ImpactsOwned db.changes db'.impacts
  pub same_changes : db'.changes ≡ db.changes
  pub same_actions : db'.actions ≡ db.actions

module _ (env : Env) (db : Db) {db' : Db} (id : ℕ) (owned : ImpactsOwned db.changes db.impacts)
    (audited : IsAudited impact_table db) where
  pub add-IsAssessed :
      (p : ImpactCreate) {i' : ChangeImpact}
      → IsNewKey impact_table env db
      → IsAudited change_table db
      → add_impact env db id p ≡ ok (db', i')
      → IsAssessed env db db'
  unfolding add_impact new_impact
  add-IsAssessed p new_key changes h =
      let (_, _, h1) = >>=-eq-ok (require change_assess env db) _ h in
      let (c, found, h2) = >>=-eq-ok (get_change_in_org env db id) _ h1 in
      let i = new_impact env db c p in
      let (effect, still) =
        child_inserted change_table impact_table (λ i. i.change_id) (λ i. refl) env db id
          (change_visible env db id found) i new_key changes owned refl refl refl
          (ap (λ d. ok (d, i)) (impact-insert env (session_of env) db i) ∙ h2) in
      record {
        scoped = Effect-IsScoped impact_table env db db' (λ k. k) audited effect;
        owned = still;
        same_changes =
            Effect-others impact_table env db db' (λ d. d.changes) (λ d xs h. refl) effect;
        same_actions =
            Effect-others impact_table env db db' (λ d. d.actions) (λ d xs h. refl) effect;
      }

  pub update-IsAssessed :
      (impact_id : ℕ) (p : ImpactUpdate) {i' : ChangeImpact}
      → update_impact env db id impact_id p ≡ ok (db', i')
      → IsAssessed env db db'
  unfolding update_impact updated_impact
  update-IsAssessed impact_id p h =
      let (_, _, h1) = >>=-eq-ok (require change_assess env db) _ h in
      let (c, found, h2) = >>=-eq-ok (get_change_in_org env db id) _ h1 in
      let (i, is_child, h3) = >>=-eq-ok (get_impact_in_change db c impact_id) _ h2 in
      let i2 = updated_impact p i in
      let (effect, still) =
        child_saved change_table impact_table (λ i. i.change_id) (λ i. refl) env db id
          (change_visible env db id found) missing impact_id audited owned is_child i2
          (record { same_key = refl; same_org = refl }) refl
          (ap (λ d. ok (d, i2)) (impact-save env (session_of env) db i i2) ∙ h3) in
      record {
        scoped = Effect-IsScoped impact_table env db db' (λ k. k) audited effect;
        owned = still;
        same_changes =
            Effect-others impact_table env db db' (λ d. d.changes) (λ d xs h. refl) effect;
        same_actions =
            Effect-others impact_table env db db' (λ d. d.actions) (λ d xs h. refl) effect;
      }

  pub delete-IsAssessed :
      (impact_id : ℕ) → delete_impact env db id impact_id ≡ ok db' → IsAssessed env db db'
  unfolding delete_impact
  delete-IsAssessed impact_id h =
      let (_, _, h1) = >>=-eq-ok (require change_assess env db) _ h in
      let (c, found, h2) = >>=-eq-ok (get_change_in_org env db id) _ h1 in
      let (i, is_child, h3) = >>=-eq-ok (get_impact_in_change db c impact_id) _ h2 in
      let is = ok-injective h3 in
      let rows_are = ap (λ (d : Db). d.impacts) (sym is) in
      record {
        scoped =
            unaudited-IsScoped impact_table env db db' impact_id i audited
              (child_of change_table impact_table (λ i. i.change_id) (λ i. refl) env db id
                (change_visible env db id found) missing impact_id audited owned is_child)
              rows_are (ap (λ (d : Db). d.history) (sym is));
        owned = subst (ImpactsOwned db.changes) (sym rows_are) (
            All-filter
              (OwnedBy change_table (λ (i : ChangeImpact). i.change_id) (λ i. i.organization_id)
                db.changes)
              (λ (j : ChangeImpact). not (j.id == i.id)) db.impacts owned);
        same_changes = ap (λ (d : Db). d.changes) (sym is);
        same_actions = ap (λ (d : Db). d.actions) (sym is);
      }
