-- ===== src/Routes/Audits/ItemEffects.antt =====
-- What the requests for the items of an audit do to the table of items.
use cron_qms.Prelude.{
  ℕ, ◌≡◌, refl, sym, ap, subst, ◌∙◌, true, false, not, some, arith, List, [], ◌∷◌, ◌++◌, ◌==◌,
  is_some_of, map, filter, overwrite, All, All-map, All-filter, All-mapped, All-append,
  overwrite-All, first, first-All, Error, http, ok, ok-pair, ok-injective, >>=-eq-ok,
}
use cron_qms.Models.Audit.{AuditChecklistItem, AuditFinding}
use cron_qms.Core.Permissions.{audit_conduct}
use cron_qms.Core.Audit.Recorded.{IsRecorded, DistinctIds}
use cron_qms.Db.{Db, Env, session_of}
use cron_qms.Routes.Access.{require}
use cron_qms.Routes.Scoped.{is_row}
use cron_qms.Routes.Scoped.Writes.{foreign, IsFound, rows-save}
use cron_qms.Routes.Scoped.Trail.{IsAudited}
use cron_qms.Routes.Scoped.Removals.{Effect, IsScoped, Effect-IsScoped, Effect-others}
use cron_qms.Routes.Scoped.Ends.{IsScoped-elsewhere, unaudited-IsScoped}
use cron_qms.Routes.Tables.More.{audit_table, finding_table}
use cron_qms.Routes.Tables.Unaudited.{item_table, item-insert, item-save}
use cron_qms.Routes.Nested.Owned.{OwnedBy, OwnedBy-same}
use cron_qms.Routes.Nested.Writes.{child_inserted, child_saved, child_of}
use cron_qms.Routes.Audits.{get_audit_in_org}
use cron_qms.Routes.Audits.Effects.{audit_visible}
use cron_qms.Routes.Audits.Items.{
  ChecklistItemCreate, ChecklistItemUpdate, get_item_in_audit, new_item, add_item, updated_item,
  update_item, unlink, delete_item,
}
use cron_qms.Routes.Audits.Links.{
  Linked, AreLinked, unlink-SameColumns, unlink-isolated, unlink-DistinctIds, unlink-IsRecorded,
  unlink-AreLinked,
}
use cron_qms.Routes.Audits.WellFormed.{FindingsOwned, ItemsOwned, IsWellFormed, IsNewItem}

abbrev missing : Error
missing = http 404 "Checklist item not found"

-- An item stays with its audit and in its organization.
pub record SamePlace (i i' : AuditChecklistItem) : Type 0 where
  pub same_id : i'.id ≡ i.id
  pub same_audit : i'.audit_id ≡ i.audit_id
  pub same_org : i'.organization_id ≡ i.organization_id
  pub same_order : i'.display_order ≡ i.display_order

pub updated_item-SamePlace :
    (p : ChecklistItemUpdate) (i : AuditChecklistItem) {i' : AuditChecklistItem}
    → updated_item p i ≡ ok i'
    → SamePlace i i'
unfolding updated_item
updated_item-SamePlace p i h = ground arith

-- What a request for an item does to the tables of items and findings.
pub record IsItemEffect (env : Env) (db db' : Db) : Type 0 where
  pub scoped : IsScoped item_table env db db'
  pub owned : ItemsOwned db.audits db'.items
  pub same_audits : db'.audits ≡ db.audits
  pub linked : AreLinked db'.items db'.findings
  pub findings : IsAudited finding_table db'
  pub findings_owned : FindingsOwned db.audits db'.findings
  pub findings_isolated :
      foreign finding_table env db'.findings ≡ foreign finding_table env db.findings

-- The links of the findings to a table of items with one more row.
added-AreLinked :
    (i : AuditChecklistItem) (items : List AuditChecklistItem) (fs : List AuditFinding)
    → All (λ (f : AuditFinding). is_some_of i.id f.checklist_item_id ≡ false) fs
    → AreLinked items fs
    → AreLinked (items ++ i ∷ []) fs
added-AreLinked i items [] unnamed linked = tt
added-AreLinked i items (f ∷ fs) unnamed linked = (
  All-append
      (λ x. is_some_of x.id f.checklist_item_id ≡ true → f.organization_id ≡ x.organization_id)
      items (i ∷ []) linked.0 (λ named. ground (arith, unnamed.0), tt),
  added-AreLinked i items fs unnamed.1 linked.1,
)

-- ... and with one row written.
saved-AreLinked :
    (i i2 : AuditChecklistItem) (items : List AuditChecklistItem) (fs : List AuditFinding)
    → SamePlace i i2
    → first (is_row item_table i.id) items ≡ some i
    → AreLinked items fs
    → AreLinked (overwrite (is_row item_table i.id) i2 items) fs
saved-AreLinked i i2 items fs same found linked =
    All-map (Linked items) (Linked (overwrite (is_row item_table i.id) i2 items)) fs
      (λ f all.
        let of_i =
          first-All
            (λ x.
              is_some_of x.id f.checklist_item_id ≡ true → f.organization_id ≡ x.organization_id)
            (is_row item_table i.id) items all found in
        overwrite-All
          (λ x. is_some_of x.id f.checklist_item_id ≡ true → f.organization_id ≡ x.organization_id)
          (is_row item_table i.id) i2 items
          (λ named.
            of_i (ap (λ k. is_some_of k f.checklist_item_id) (sym same.same_id) ∙ named)
            ∙ sym same.same_org)
          all)
      linked

-- The findings are not written.
module _ (env : Env) (db db' : Db) (wf : IsWellFormed db) {fresh : Type 0} where
  findings_kept :
      (fresh → IsNewItem env db)
      → Effect item_table fresh env db db'
      → ItemsOwned db.audits db'.items
      → AreLinked db'.items db.findings
      → IsItemEffect env db db'
  findings_kept is_new effect owned linked =
      let scoped =
        Effect-IsScoped item_table env db db' (λ f. (is_new f).new_key) wf.items effect in
      let same : db'.findings ≡ db.findings =
        Effect-others item_table env db db' (λ d. d.findings) (λ d xs h. refl) effect in
      record {
        scoped = scoped;
        owned = owned;
        same_audits = Effect-others item_table env db db' (λ d. d.audits) (λ d xs h. refl) effect;
        linked = subst (AreLinked db'.items) (sym same) linked;
        findings =
            IsScoped-elsewhere item_table finding_table env db db' refl same wf.findings scoped;
        findings_owned = subst (FindingsOwned db.audits) (sym same) wf.findings_owned;
        findings_isolated = ap (foreign finding_table env) same;
      }

-- The findings that name a deleted item lose their link.
module _ (env : Env) (db db' : Db) (wf : IsWellFormed db) (i : AuditChecklistItem)
    (is : record db {
      items = filter (λ x. not (x.id == i.id)) db.items;
      findings = map (unlink i.id) db.findings;
    }
      ≡ db')
    (item_id : ℕ) (i_found : IsFound item_table env db item_id i) where
  unlinked_owned : FindingsOwned db.audits (map (unlink i.id) db.findings)
  unlinked_owned =
      All-mapped
        (OwnedBy audit_table (λ (f : AuditFinding). f.audit_id) (λ f. f.organization_id) db.audits)
        (unlink i.id) db.findings
        (λ f all.
          OwnedBy-same audit_table (λ (f : AuditFinding). f.audit_id) (λ f. f.organization_id)
            db.audits f (unlink i.id f) (unlink-SameColumns i.id f).same_audit
            (unlink-SameColumns i.id f).same_org all)
        wf.findings_owned

  filtered_links : AreLinked (filter (λ x. not (x.id == i.id)) db.items) db.findings
  filtered_links =
      All-map (Linked db.items) (Linked (filter (λ x. not (x.id == i.id)) db.items)) db.findings
        (λ f all.
          All-filter
            (λ x.
              is_some_of x.id f.checklist_item_id ≡ true → f.organization_id ≡ x.organization_id)
            (λ x. not (x.id == i.id)) db.items all)
        wf.linked

  deleted_item : IsItemEffect env db db'
  deleted_item =
      let items_are = ap (λ (d : Db). d.items) (sym is) in
      let findings_are = ap (λ (d : Db). d.findings) (sym is) in
      let same_history : db'.history ≡ db.history = ap (λ (d : Db). d.history) (sym is) in
      record {
        scoped =
            unaudited-IsScoped item_table env db db' item_id i wf.items i_found items_are
              same_history;
        owned = subst (ItemsOwned db.audits) (sym items_are) (
            All-filter
              (OwnedBy audit_table (λ (x : AuditChecklistItem). x.audit_id) (λ x. x.organization_id)
                db.audits)
              (λ (x : AuditChecklistItem). not (x.id == i.id)) db.items wf.items_owned);
        same_audits = ap (λ (d : Db). d.audits) (sym is);
        linked =
            subst (λ xs. AreLinked xs db'.findings) (sym items_are)
              (subst (AreLinked (filter (λ x. not (x.id == i.id)) db.items)) (sym findings_are) (
                unlink-AreLinked i (filter (λ x. not (x.id == i.id)) db.items) db.findings
                  filtered_links));
        findings = record {
          recorded =
              subst (λ h. IsRecorded finding_table.audited h db'.findings) (sym same_history)
                (subst (IsRecorded finding_table.audited db.history) (sym findings_are)
                  (unlink-IsRecorded i.id db.history db.findings wf.findings.recorded));
          keys =
              subst (DistinctIds finding_table.audited) (sym findings_are)
                (unlink-DistinctIds i.id db.findings wf.findings.keys);
        };
        findings_owned = subst (FindingsOwned db.audits) (sym findings_are) unlinked_owned;
        findings_isolated =
            ap (foreign finding_table env) findings_are
            ∙ unlink-isolated env i db.items db.findings i_found.found i_found.mine wf.linked;
      }

module _ (env : Env) (db : Db) {db' : Db} (id : ℕ) (wf : IsWellFormed db) where
  pub add-IsItemEffect :
      (p : ChecklistItemCreate) {i' : AuditChecklistItem}
      → IsNewItem env db
      → add_item env db id p ≡ ok (db', i')
      → IsItemEffect env db db'
  unfolding add_item new_item
  add-IsItemEffect p {i'} is_new h =
      let (_, _, h1) = >>=-eq-ok (require audit_conduct env db) _ h in
      let (a, found, h2) = >>=-eq-ok (get_audit_in_org env db id) _ h1 in
      let i = new_item env db a p in
      let written = record db { items = db.items ++ i ∷ [] } in
      let (effect, owned) =
        child_inserted audit_table item_table (λ x. x.audit_id) (λ x. refl) env db id
          (audit_visible env db id found) i is_new wf.audits wf.items_owned refl refl refl
          (ap (λ d. ok (d, i)) (item-insert env (session_of env) db i) ∙ h2) in
      findings_kept env db db' wf (λ f. f) effect owned
        (subst (λ xs. AreLinked xs db.findings)
          (ap (λ (d : Db). d.items) (ok-pair written db' i i' h2).0)
          (added-AreLinked i db.items db.findings is_new.no_link wf.linked))

  pub update-IsItemEffect :
      (item_id : ℕ) (p : ChecklistItemUpdate) {i' : AuditChecklistItem}
      → update_item env db id item_id p ≡ ok (db', i')
      → IsItemEffect env db db'
  unfolding update_item
  update-IsItemEffect item_id p {i'} h =
      let (_, _, h1) = >>=-eq-ok (require audit_conduct env db) _ h in
      let (a, found, h2) = >>=-eq-ok (get_audit_in_org env db id) _ h1 in
      let (i, is_child, h3) = >>=-eq-ok (get_item_in_audit db a item_id) _ h2 in
      let (i2, up, h4) = >>=-eq-ok (updated_item p i) _ h3 in
      let same = updated_item-SamePlace p i up in
      let written = record db { items = overwrite (λ x. x.id == i.id) i2 db.items } in
      let i_found =
        child_of audit_table item_table (λ x. x.audit_id) (λ x. refl) env db id
          (audit_visible env db id found) missing item_id wf.items wf.items_owned is_child in
      let (effect, owned) =
        child_saved audit_table item_table (λ x. x.audit_id) (λ x. refl) env db id
          (audit_visible env db id found) missing item_id wf.items wf.items_owned is_child i2
          (record { same_key = same.same_id; same_org = same.same_org }) same.same_audit
          (ap (λ d. ok (d, i2)) (item-save env (session_of env) db i i2) ∙ h4) in
      findings_kept env db db' wf {fresh = IsNewItem env db} (λ f. f) effect owned
        (subst (λ xs. AreLinked xs db.findings)
          (sym (rows-save item_table env db db i2 (session_of env) i)
            ∙ ap (λ (d : Db). d.items) (item-save env (session_of env) db i i2)
            ∙ ap (λ (d : Db). d.items) (ok-pair written db' i2 i' h4).0)
          (saved-AreLinked i i2 db.items db.findings same i_found.found wf.linked))

  pub delete-IsItemEffect :
      (item_id : ℕ) → delete_item env db id item_id ≡ ok db' → IsItemEffect env db db'
  unfolding delete_item
  delete-IsItemEffect item_id h =
      let (_, _, h1) = >>=-eq-ok (require audit_conduct env db) _ h in
      let (a, found, h2) = >>=-eq-ok (get_audit_in_org env db id) _ h1 in
      let (i, is_child, h3) = >>=-eq-ok (get_item_in_audit db a item_id) _ h2 in
      deleted_item env db db' wf i (ok-injective h3) item_id (
        child_of audit_table item_table (λ x. x.audit_id) (λ x. refl) env db id
          (audit_visible env db id found) missing item_id wf.items wf.items_owned is_child)
