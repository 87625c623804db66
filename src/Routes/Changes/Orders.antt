-- ===== src/Routes/Changes/Orders.antt =====
-- The display orders of the impacts of a change.
use cron_qms.Prelude.{
  ℕ, ◌≡◌, refl, sym, ap, subst, ◌∙◌, not, ◌==◌, List, [], ◌∷◌, ◌++◌, overwrite, ok, http, ok-pair,
  ok-injective, >>=-eq-ok,
}
use cron_qms.Models.Change.{ChangeImpact}
use cron_qms.Core.Permissions.{change_assess}
use cron_qms.Db.{wrote_to-ok, Db, Env, session_of}
use cron_qms.Routes.Access.{require}
use cron_qms.Routes.Scoped.Removals.{Effect, Effect-others}
use cron_qms.Routes.Scoped.Writes.{rows-save}
use cron_qms.Routes.Tables.More.{change_table, action_table}
use cron_qms.Routes.Tables.Unaudited.{impact_table, impact-save}
use cron_qms.Routes.Nested.Slots.{
  DistinctSlots, next-DistinctSlots, filter-DistinctSlots, overwrite-DistinctSlots,
}
use cron_qms.Routes.Nested.Writes.{child_of}
use cron_qms.Routes.Changes.{get_change_in_org, create_change, update_change}
use cron_qms.Routes.Changes.Impacts.{
  ImpactCreate, ImpactUpdate, get_impact_in_change, new_impact, add_impact, updated_impact,
  update_impact, delete_impact,
}
use cron_qms.Routes.Changes.Actions.{add_action, update_action}
use cron_qms.Routes.Changes.Effects
use cron_qms.Routes.Changes.Effects.{change_visible}
use cron_qms.Routes.Changes.ActionEffects
use cron_qms.Routes.Changes.Scope.{IsWellFormed}
use cron_qms.Routes.Changes.Requests.{
  Request, create, update, delete, assess, reassess, drop_impact, plan, progress, drop_action,
  handle,
}

-- No two impacts of a change have the same display order.
abbrev pub DistinctOrders : List ChangeImpact → Type 0
DistinctOrders = DistinctSlots (λ (i : ChangeImpact). i.change_id) (λ i. i.display_order)

module _ (env : Env) (db : Db) {db' : Db} (slots : DistinctOrders db.impacts) where
  changed : {fresh : Type 0} → Effect change_table fresh env db db' → DistinctOrders db'.impacts
  changed effect =
      subst DistinctOrders
        (sym (Effect-others change_table env db db' (λ d. d.impacts) (λ d xs h. refl) effect)) slots

  acted : {fresh : Type 0} → Effect action_table fresh env db db' → DistinctOrders db'.impacts
  acted effect =
      subst DistinctOrders
        (sym (Effect-others action_table env db db' (λ d. d.impacts) (λ d xs h. refl) effect)) slots

  add-DistinctOrders :
      (id : ℕ) (p : ImpactCreate) {i' : ChangeImpact}
      → add_impact env db id p ≡ ok (db', i')
      → DistinctOrders db'.impacts
  unfolding add_impact new_impact
  add-DistinctOrders id p {i'} h =
      let (_, _, h1) = >>=-eq-ok (require change_assess env db) _ h in
      let (c, found, h2) = >>=-eq-ok (get_change_in_org env db id) _ h1 in
      let i = new_impact env db c p in
      let written = record db { impacts = db.impacts ++ i ∷ [] } in
      subst DistinctOrders (ap (λ (d : Db). d.impacts) (ok-pair written db' i i' h2).0)
        (next-DistinctSlots (λ i. i.change_id) (λ i. i.display_order) i db.impacts refl slots)

  update-DistinctOrders :
      (id impact_id : ℕ) (p : ImpactUpdate) {i' : ChangeImpact}
      → IsWellFormed db
      → update_impact env db id impact_id p ≡ ok (db', i')
      → DistinctOrders db'.impacts
  unfolding update_impact updated_impact
  update-DistinctOrders id impact_id p {i'} wf h =
      let (_, _, h1) = >>=-eq-ok (require change_assess env db) _ h in
      let (c, found, h2) = >>=-eq-ok (get_change_in_org env db id) _ h1 in
      let (i, is_child, h3) = >>=-eq-ok (get_impact_in_change db c impact_id) _ h2 in
      let is_found =
        child_of change_table impact_table (λ i. i.change_id) (λ i. refl) env db id
          (change_visible env db id found) (http 404 "Impact assessment not found") impact_id
          wf.impacts wf.impacts_owned is_child in
      let i2 = updated_impact p i in
      let written = record db { impacts = overwrite (λ x. x.id == i.id) i2 db.impacts } in
      subst DistinctOrders
        (sym (rows-save impact_table env db db i2 (session_of env) i)
          ∙ ap (λ (d : Db). d.impacts) (impact-save env (session_of env) db i i2)
          ∙ ap (λ (d : Db). d.impacts) (ok-pair written db' i2 i' h3).0)
        (overwrite-DistinctSlots (λ i. i.change_id) (λ i. i.display_order) _ i2 i db.impacts
          is_found.found refl refl slots)

  delete-DistinctOrders :
      (id impact_id : ℕ) → delete_impact env db id impact_id ≡ ok db' → DistinctOrders db'.impacts
  unfolding delete_impact
  delete-DistinctOrders id impact_id h =
      let (_, _, h1) = >>=-eq-ok (require change_assess env db) _ h in
      let (c, found, h2) = >>=-eq-ok (get_change_in_org env db id) _ h1 in
      let (i, is_child, h3) = >>=-eq-ok (get_impact_in_change db c impact_id) _ h2 in
      subst DistinctOrders (ap (λ (d : Db). d.impacts) (ok-injective h3)) (
        filter-DistinctSlots (λ i. i.change_id) (λ i. i.display_order)
          (λ (x : ChangeImpact). not (x.id == i.id)) db.impacts slots)

-- If the tables of change control are well formed, then every request that succeeds keeps the
-- display orders of the impacts of each change distinct, deletions between additions included.
pub handle-DistinctOrders :
    (env : Env) (db : Db) (r : Request) {db' : Db}
    → IsWellFormed db
    → DistinctOrders db.impacts
    → handle env db r ≡ ok db'
    → DistinctOrders db'.impacts
unfolding handle
handle-DistinctOrders env db (create p) wf slots h =
    let (_, is) = wrote_to-ok (create_change env db p) h in
    changed env db slots (Effects.create-Effect env db p tt is)
handle-DistinctOrders env db (update id p) wf slots h =
    let (_, is) = wrote_to-ok (update_change env db id p) h in
    changed env db slots (Effects.update-Effect env db {fresh = Unit} id p is)
handle-DistinctOrders env db (delete id) wf slots h =
    changed env db slots (Effects.delete-Effect env db {fresh = Unit} id h)
handle-DistinctOrders env db (assess id p) wf slots h =
    let (_, is) = wrote_to-ok (add_impact env db id p) h in add-DistinctOrders env db slots id p is
handle-DistinctOrders env db (reassess id impact_id p) wf slots h =
    let (_, is) = wrote_to-ok (update_impact env db id impact_id p) h in
    update-DistinctOrders env db slots id impact_id p wf is
handle-DistinctOrders env db (drop_impact id impact_id) wf slots h =
    delete-DistinctOrders env db slots id impact_id h
handle-DistinctOrders env db (plan id p) wf slots h =
    let (_, is) = wrote_to-ok (add_action env db id p) h in
    acted env db slots (ActionEffects.add-Effect env db id wf.actions_owned p tt wf.changes is).0
handle-DistinctOrders env db (progress id action_id p) wf slots h =
    let (_, is) = wrote_to-ok (update_action env db id action_id p) h in
    acted env db slots
      (ActionEffects.update-Effect env db {fresh = Unit} id wf.actions_owned action_id p wf.actions
        is).0
handle-DistinctOrders env db (drop_action id action_id) wf slots h =
    acted env db slots
      (ActionEffects.delete-Effect env db {fresh = Unit} id wf.actions_owned action_id wf.actions
        h).0
