-- ===== src/Routes/Audits/Scope.antt =====
-- The organization and the audit trail of app/api/routes/audits.py: all the requests that write,
-- over the tables of audits, findings and checklist items.
use cron_qms.Prelude.{◌≡◌, refl, sym, ap, subst, ok}
use cron_qms.Db.{wrote_to-ok, Db, Env}
use cron_qms.Routes.Scoped.Writes.{foreign}
use cron_qms.Routes.Scoped.Trail.{IsNewKey}
use cron_qms.Routes.Scoped.Removals.{Effect, Effect-IsScoped, Effect-others, Appends}
use cron_qms.Routes.Scoped.Ends.{IsScoped-elsewhere, IsScoped-Appends}
use cron_qms.Routes.Tables.More.{audit_table, finding_table}
use cron_qms.Routes.Tables.Unaudited.{item_table}
use cron_qms.Routes.Nested.Owned.{Owned-parents}
use cron_qms.Routes.Audits.{create_audit, update_audit}
use cron_qms.Routes.Audits.Items.{add_item, update_item}
use cron_qms.Routes.Audits.Findings.{add_finding, update_finding}
use cron_qms.Routes.Audits.Effects
use cron_qms.Routes.Audits.FindingEffects
use cron_qms.Routes.Audits.FindingEffects.{FindingEffect}
use cron_qms.Routes.Audits.ItemEffects
use cron_qms.Routes.Audits.ItemEffects.{IsItemEffect}
use cron_qms.Routes.Audits.Links.{AreLinked}
use cron_qms.Routes.Audits.WellFormed.{
  FindingsOwned, ItemsOwned, IsWellFormed, IsNewAudit, IsNewItem,
}
use cron_qms.Routes.Audits.Requests.{
  Request, create, update, delete, ask, answer, drop_item, report, follow_up, drop_finding, handle,
}

-- A request that inserts a row gets a new key for its table.
abbrev pub IsNewFor : Env → Db → Request → Type 0
IsNewFor env db (create p) = IsNewAudit env db
IsNewFor env db (report id p) = IsNewKey finding_table env db
IsNewFor env db (ask id p) = IsNewItem env db
IsNewFor env db r = Unit

pub record IsConfined (env : Env) (db db' : Db) : Type 0 where
  pub well_formed : IsWellFormed db'
  pub audits : foreign audit_table env db'.audits ≡ foreign audit_table env db.audits
  pub findings : foreign finding_table env db'.findings ≡ foreign finding_table env db.findings
  pub items : foreign item_table env db'.items ≡ foreign item_table env db.items
  pub trail : Appends env db db'

module _ (env : Env) (db db' : Db) (wf : IsWellFormed db) where
  audit_step :
      {fresh : Type 0}
      → (fresh → IsNewAudit env db)
      → Effect audit_table fresh env db db'
      → IsConfined env db db'
  audit_step is_new effect =
      let scoped =
        Effect-IsScoped audit_table env db db' (λ f. (is_new f).new_key) wf.audits effect in
      let findings_are : db'.findings ≡ db.findings =
        Effect-others audit_table env db db' (λ d. d.findings) (λ d xs h. refl) effect in
      let items_are : db'.items ≡ db.items =
        Effect-others audit_table env db db' (λ d. d.items) (λ d xs h. refl) effect in
      record {
        well_formed = record {
          audits = scoped.audited;
          findings =
              IsScoped-elsewhere audit_table finding_table env db db' refl findings_are wf.findings
                scoped;
          items =
              IsScoped-elsewhere audit_table item_table env db db' refl items_are wf.items scoped;
          findings_owned = subst (FindingsOwned db'.audits) (sym findings_are) (
              Owned-parents audit_table (λ a. a.audit_id) (λ a. a.organization_id) env db db'
                db.findings (λ f. (is_new f).no_finding) wf.findings_owned effect);
          items_owned = subst (ItemsOwned db'.audits) (sym items_are) (
              Owned-parents audit_table (λ i. i.audit_id) (λ i. i.organization_id) env db db'
                db.items (λ f. (is_new f).no_item) wf.items_owned effect);
          linked =
              subst (AreLinked db'.items) (sym findings_are)
                (subst (λ xs. AreLinked xs db.findings) (sym items_are) wf.linked);
        };
        audits = scoped.isolated;
        findings = ap (foreign finding_table env) findings_are;
        items = ap (foreign item_table env) items_are;
        trail = IsScoped-Appends audit_table env db db' scoped;
      }

  finding_step : FindingEffect (IsNewKey finding_table env db) env db db' → IsConfined env db db'
  finding_step (effect, owned, linked) =
      let scoped = Effect-IsScoped finding_table env db db' (λ f. f) wf.findings effect in
      let audits_are : db'.audits ≡ db.audits =
        Effect-others finding_table env db db' (λ d. d.audits) (λ d xs h. refl) effect in
      let items_are : db'.items ≡ db.items =
        Effect-others finding_table env db db' (λ d. d.items) (λ d xs h. refl) effect in
      record {
        well_formed = record {
          audits =
              IsScoped-elsewhere finding_table audit_table env db db' refl audits_are wf.audits
                scoped;
          findings = scoped.audited;
          items =
              IsScoped-elsewhere finding_table item_table env db db' refl items_are wf.items scoped;
          findings_owned = subst (λ xs. FindingsOwned xs db'.findings) (sym audits_are) owned;
          items_owned =
              subst (λ xs. ItemsOwned xs db'.items) (sym audits_are)
                (subst (ItemsOwned db.audits) (sym items_are) wf.items_owned);
          linked = subst (λ xs. AreLinked xs db'.findings) (sym items_are) linked;
        };
        audits = ap (foreign audit_table env) audits_are;
        findings = scoped.isolated;
        items = ap (foreign item_table env) items_are;
        trail = IsScoped-Appends finding_table env db db' scoped;
      }

  item_step : IsItemEffect env db db' → IsConfined env db db'
  item_step e = record {
    well_formed = record {
      audits =
          IsScoped-elsewhere item_table audit_table env db db' refl e.same_audits wf.audits
            e.scoped;
      findings = e.findings;
      items = e.scoped.audited;
      findings_owned =
          subst (λ xs. FindingsOwned xs db'.findings) (sym e.same_audits) e.findings_owned;
      items_owned = subst (λ xs. ItemsOwned xs db'.items) (sym e.same_audits) e.owned;
      linked = e.linked;
    };
    audits = ap (foreign audit_table env) e.same_audits;
    findings = e.findings_isolated;
    items = e.scoped.isolated;
    trail = IsScoped-Appends item_table env db db' e.scoped;
  }

-- If the tables of audits are well formed (distinct keys, a complete trail of audits and findings,
-- every finding and item of the organization of its audit, every finding of the organization of
-- the item that it names) and a row that the request inserts gets a new key, then a request that
-- succeeds leaves the audits, the findings and the items of other organizations as they are, keeps
-- the tables well formed, and appends to the trail only rows that name its caller and its time.
pub audit_request_scope :
    (env : Env) (db : Db) (r : Request) {db' : Db}
    → IsWellFormed db
    → IsNewFor env db r
    → handle env db r ≡ ok db'
    → IsConfined env db db'
unfolding handle
audit_request_scope env db (create p) {db'} wf is_new h =
    let (_, is) = wrote_to-ok (create_audit env db p) h in
    audit_step env db db' wf (λ f. f) (Effects.create-Effect env db p is_new is)
audit_request_scope env db (update id p) {db'} wf is_new h =
    let (_, is) = wrote_to-ok (update_audit env db id p) h in
    audit_step env db db' wf (λ f. f) (Effects.update-Effect env db id p is)
audit_request_scope env db (delete id) {db'} wf is_new h =
    audit_step env db db' wf (λ f. f) (Effects.delete-Effect env db id h)
audit_request_scope env db (ask id p) {db'} wf is_new h =
    let (_, is) = wrote_to-ok (add_item env db id p) h in
    item_step env db db' wf (ItemEffects.add-IsItemEffect env db id wf p is_new is)
audit_request_scope env db (answer id item_id p) {db'} wf is_new h =
    let (_, is) = wrote_to-ok (update_item env db id item_id p) h in
    item_step env db db' wf (ItemEffects.update-IsItemEffect env db id wf item_id p is)
audit_request_scope env db (drop_item id item_id) {db'} wf is_new h =
    item_step env db db' wf (ItemEffects.delete-IsItemEffect env db id wf item_id h)
audit_request_scope env db (report id p) {db'} wf is_new h =
    let (_, is) = wrote_to-ok (add_finding env db id p) h in
    finding_step env db db' wf (FindingEffects.add-FindingEffect env db id wf p is_new is)
audit_request_scope env db (follow_up id finding_id p) {db'} wf is_new h =
    let (_, is) = wrote_to-ok (update_finding env db id finding_id p) h in
    finding_step env db db' wf (FindingEffects.update-FindingEffect env db id wf finding_id p is)
audit_request_scope env db (drop_finding id finding_id) {db'} wf is_new h =
    finding_step env db db' wf (FindingEffects.delete-FindingEffect env db id wf finding_id h)
