-- ===== src/Routes/Audits/Orders.antt =====
-- The display orders of the items of an audit.
use cron_qms.Prelude.{
  ℕ, ◌≡◌, refl, sym, ap, subst, ◌∙◌, not, ◌==◌, List, [], ◌∷◌, ◌++◌, overwrite, ok, http, ok-pair,
  ok-injective, >>=-eq-ok,
}
use cron_qms.Models.Audit.{AuditChecklistItem}
use cron_qms.Core.Permissions.{audit_conduct}
use cron_qms.Db.{wrote_to-ok, Db, Env, session_of}
use cron_qms.Routes.Access.{require}
use cron_qms.Routes.Scoped.Removals.{Effect, Effect-others}
use cron_qms.Routes.Scoped.Writes.{rows-save}
use cron_qms.Routes.Tables.More.{audit_table, finding_table}
use cron_qms.Routes.Tables.Unaudited.{item_table, item-save}
use cron_qms.Routes.Nested.Slots.{
  DistinctSlots, next-DistinctSlots, filter-DistinctSlots, overwrite-DistinctSlots,
}
use cron_qms.Routes.Nested.Writes.{child_of}
use cron_qms.Routes.Audits.{get_audit_in_org, create_audit, update_audit}
use cron_qms.Routes.Audits.Items.{
  ChecklistItemCreate, ChecklistItemUpdate, get_item_in_audit, new_item, add_item, updated_item,
  update_item, delete_item,
}
use cron_qms.Routes.Audits.Findings.{add_finding, update_finding}
use cron_qms.Routes.Audits.Effects
use cron_qms.Routes.Audits.Effects.{audit_visible}
use cron_qms.Routes.Audits.FindingEffects
use cron_qms.Routes.Audits.WellFormed.{IsWellFormed}
use cron_qms.Routes.Audits.ItemEffects.{updated_item-SamePlace}
use cron_qms.Routes.Audits.Requests.{
  Request, create, update, delete, ask, answer, drop_item, report, follow_up, drop_finding, handle,
}

-- No two items of an audit have the same display order.
abbrev pub DistinctOrders : List AuditChecklistItem → Type 0
DistinctOrders = DistinctSlots (λ (i : AuditChecklistItem). i.audit_id) (λ i. i.display_order)

module _ (env : Env) (db : Db) {db' : Db} (slots : DistinctOrders db.items) where
  changed : {fresh : Type 0} → Effect audit_table fresh env db db' → DistinctOrders db'.items
  changed effect =
      subst DistinctOrders
        (sym (Effect-others audit_table env db db' (λ d. d.items) (λ d xs h. refl) effect)) slots

  acted : {fresh : Type 0} → Effect finding_table fresh env db db' → DistinctOrders db'.items
  acted effect =
      subst DistinctOrders
        (sym (Effect-others finding_table env db db' (λ d. d.items) (λ d xs h. refl) effect)) slots

  add-DistinctOrders :
      (id : ℕ) (p : ChecklistItemCreate) {i' : AuditChecklistItem}
      → add_item env db id p ≡ ok (db', i')
      → DistinctOrders db'.items
  unfolding add_item new_item
  add-DistinctOrders id p {i'} h =
      let (_, _, h1) = >>=-eq-ok (require audit_conduct env db) _ h in
      let (c, found, h2) = >>=-eq-ok (get_audit_in_org env db id) _ h1 in
      let i = new_item env db c p in
      let written = record db { items = db.items ++ i ∷ [] } in
      subst DistinctOrders (ap (λ (d : Db). d.items) (ok-pair written db' i i' h2).0)
        (next-DistinctSlots (λ i. i.audit_id) (λ i. i.display_order) i db.items refl slots)

  update-DistinctOrders :
      (id item_id : ℕ) (p : ChecklistItemUpdate) {i' : AuditChecklistItem}
      → IsWellFormed db
      → update_item env db id item_id p ≡ ok (db', i')
      → DistinctOrders db'.items
  unfolding update_item
  update-DistinctOrders id item_id p {i'} wf h =
      let (_, _, h1) = >>=-eq-ok (require audit_conduct env db) _ h in
      let (c, found, h2) = >>=-eq-ok (get_audit_in_org env db id) _ h1 in
      let (i, is_child, h3) = >>=-eq-ok (get_item_in_audit db c item_id) _ h2 in
      let is_found =
        child_of audit_table item_table (λ i. i.audit_id) (λ i. refl) env db id
          (audit_visible env db id found) (http 404 "Checklist item not found") item_id wf.items
          wf.items_owned is_child in
      let (i2, up, h4) = >>=-eq-ok (updated_item p i) _ h3 in
      let same = updated_item-SamePlace p i up in
      let written = record db { items = overwrite (λ x. x.id == i.id) i2 db.items } in
      subst DistinctOrders
        (sym (rows-save item_table env db db i2 (session_of env) i)
          ∙ ap (λ (d : Db). d.items) (item-save env (session_of env) db i i2)
          ∙ ap (λ (d : Db). d.items) (ok-pair written db' i2 i' h4).0)
        (overwrite-DistinctSlots (λ i. i.audit_id) (λ i. i.display_order) _ i2 i db.items
          is_found.found same.same_audit same.same_order slots)

  delete-DistinctOrders :
      (id item_id : ℕ) → delete_item env db id item_id ≡ ok db' → DistinctOrders db'.items
  unfolding delete_item
  delete-DistinctOrders id item_id h =
      let (_, _, h1) = >>=-eq-ok (require audit_conduct env db) _ h in
      let (c, found, h2) = >>=-eq-ok (get_audit_in_org env db id) _ h1 in
      let (i, is_child, h3) = >>=-eq-ok (get_item_in_audit db c item_id) _ h2 in
      subst DistinctOrders (ap (λ (d : Db). d.items) (ok-injective h3)) (
        filter-DistinctSlots (λ i. i.audit_id) (λ i. i.display_order)
          (λ (x : AuditChecklistItem). not (x.id == i.id)) db.items slots)

-- If the tables of audits are well formed, then every request that succeeds keeps the display orders
-- of the checklist items of each audit distinct, deletions between additions included.
pub handle-DistinctOrders :
    (env : Env) (db : Db) (r : Request) {db' : Db}
    → IsWellFormed db
    → DistinctOrders db.items
    → handle env db r ≡ ok db'
    → DistinctOrders db'.items
unfolding handle
handle-DistinctOrders env db (create p) wf slots h =
    let (_, is) = wrote_to-ok (create_audit env db p) h in
    changed env db slots (Effects.create-Effect env db p tt is)
handle-DistinctOrders env db (update id p) wf slots h =
    let (_, is) = wrote_to-ok (update_audit env db id p) h in
    changed env db slots (Effects.update-Effect env db {fresh = Unit} id p is)
handle-DistinctOrders env db (delete id) wf slots h =
    changed env db slots (Effects.delete-Effect env db {fresh = Unit} id h)
handle-DistinctOrders env db (ask id p) wf slots h =
    let (_, is) = wrote_to-ok (add_item env db id p) h in add-DistinctOrders env db slots id p is
handle-DistinctOrders env db (answer id item_id p) wf slots h =
    let (_, is) = wrote_to-ok (update_item env db id item_id p) h in
    update-DistinctOrders env db slots id item_id p wf is
handle-DistinctOrders env db (drop_item id item_id) wf slots h =
    delete-DistinctOrders env db slots id item_id h
handle-DistinctOrders env db (report id p) wf slots h =
    let (_, is) = wrote_to-ok (add_finding env db id p) h in
    acted env db slots (FindingEffects.add-FindingEffect env db id wf p tt is).0
handle-DistinctOrders env db (follow_up id finding_id p) wf slots h =
    let (_, is) = wrote_to-ok (update_finding env db id finding_id p) h in
    acted env db slots
      (FindingEffects.update-FindingEffect env db {fresh = Unit} id wf finding_id p is).0
handle-DistinctOrders env db (drop_finding id finding_id) wf slots h =
    acted env db slots
      (FindingEffects.delete-FindingEffect env db {fresh = Unit} id wf finding_id h).0
