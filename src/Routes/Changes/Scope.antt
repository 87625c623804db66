-- ===== src/Routes/Changes/Scope.antt =====
-- The organization and the audit trail of change control: all the requests that write, over the
-- tables of changes, actions and impacts.
use cron_qms.Prelude.{◌≡◌, refl, sym, ap, subst, false, ◌==◌, All, ok}
use cron_qms.Models.Change.{ChangeAction, ChangeImpact}
use cron_qms.Db.{wrote_to-ok, Db, Env}
use cron_qms.Routes.Scoped.Writes.{foreign}
use cron_qms.Routes.Scoped.Trail.{IsAudited, IsNewKey}
use cron_qms.Routes.Scoped.Removals.{Effect, Effect-IsScoped, Effect-others, Appends}
use cron_qms.Routes.Scoped.Ends.{IsScoped-elsewhere, IsScoped-Appends}
use cron_qms.Routes.Tables.More.{change_table, action_table}
use cron_qms.Routes.Tables.Unaudited.{impact_table}
use cron_qms.Routes.Nested.Owned.{Owned-parents}
use cron_qms.Routes.Changes.{create_change, update_change}
use cron_qms.Routes.Changes.Impacts.{add_impact, update_impact}
use cron_qms.Routes.Changes.Actions.{add_action, update_action}
use cron_qms.Routes.Changes.Effects
use cron_qms.Routes.Changes.ActionEffects
use cron_qms.Routes.Changes.ActionEffects.{ActionsOwned}
use cron_qms.Routes.Changes.ImpactEffects
use cron_qms.Routes.Changes.ImpactEffects.{ImpactsOwned, IsAssessed}
use cron_qms.Routes.Changes.Requests.{
  Request, create, update, delete, assess, reassess, drop_impact, plan, progress, drop_action,
  handle,
}

-- The keys of each table are distinct, the trail shows every change and every action as it is, and
-- actions and impacts are of the organizations of their changes.
pub record IsWellFormed (db : Db) : Type 0 where
  pub changes : IsAudited change_table db
  pub actions : IsAudited action_table db
  pub impacts : IsAudited impact_table db
  pub actions_owned : ActionsOwned db.changes db.actions
  pub impacts_owned : ImpactsOwned db.changes db.impacts

-- The key of a new change is new, and no action or impact names it.
pub record IsNewChange (env : Env) (db : Db) : Type 0 where
  pub new_key : IsNewKey change_table env db
  pub no_action : All (λ (a : ChangeAction). (env.new_id == a.change_id) ≡ false) db.actions
  pub no_impact : All (λ (i : ChangeImpact). (env.new_id == i.change_id) ≡ false) db.impacts

-- A request that inserts a row gets a new key for its table.
abbrev pub IsNewFor : Env → Db → Request → Type 0
IsNewFor env db (create p) = IsNewChange env db
IsNewFor env db (plan id p) = IsNewKey action_table env db
IsNewFor env db (assess id p) = IsNewKey impact_table env db
IsNewFor env db r = Unit

pub record IsConfined (env : Env) (db db' : Db) : Type 0 where
  pub well_formed : IsWellFormed db'
  pub changes : foreign change_table env db'.changes ≡ foreign change_table env db.changes
  pub actions : foreign action_table env db'.actions ≡ foreign action_table env db.actions
  pub impacts : foreign impact_table env db'.impacts ≡ foreign impact_table env db.impacts
  pub trail : Appends env db db'

module _ (env : Env) (db db' : Db) (wf : IsWellFormed db) where
  change_step :
      {fresh : Type 0}
      → (fresh → IsNewChange env db)
      → Effect change_table fresh env db db'
      → IsConfined env db db'
  change_step is_new effect =
      let scoped =
        Effect-IsScoped change_table env db db' (λ f. (is_new f).new_key) wf.changes effect in
      let actions_are : db'.actions ≡ db.actions =
        Effect-others change_table env db db' (λ d. d.actions) (λ d xs h. refl) effect in
      let impacts_are : db'.impacts ≡ db.impacts =
        Effect-others change_table env db db' (λ d. d.impacts) (λ d xs h. refl) effect in
      record {
        well_formed = record {
          changes = scoped.audited;
          actions =
              IsScoped-elsewhere change_table action_table env db db' refl actions_are wf.actions
                scoped;
          impacts =
              IsScoped-elsewhere change_table impact_table env db db' refl impacts_are wf.impacts
                scoped;
          actions_owned = subst (ActionsOwned db'.changes) (sym actions_are) (
              Owned-parents change_table (λ a. a.change_id) (λ a. a.organization_id) env db db'
                db.actions (λ f. (is_new f).no_action) wf.actions_owned effect);
          impacts_owned = subst (ImpactsOwned db'.changes) (sym impacts_are) (
              Owned-parents change_table (λ i. i.change_id) (λ i. i.organization_id) env db db'
                db.impacts (λ f. (is_new f).no_impact) wf.impacts_owned effect);
        };
        changes = scoped.isolated;
        actions = ap (foreign action_table env) actions_are;
        impacts = ap (foreign impact_table env) impacts_are;
        trail = IsScoped-Appends change_table env db db' scoped;
      }

  action_step :
      {fresh : Type 0}
      → (fresh → IsNewKey action_table env db)
      → Effect action_table fresh env db db' × ActionsOwned db.changes db'.actions
      → IsConfined env db db'
  action_step is_new (effect, owned) =
      let scoped = Effect-IsScoped action_table env db db' is_new wf.actions effect in
      let changes_are : db'.changes ≡ db.changes =
        Effect-others action_table env db db' (λ d. d.changes) (λ d xs h. refl) effect in
      let impacts_are : db'.impacts ≡ db.impacts =
        Effect-others action_table env db db' (λ d. d.impacts) (λ d xs h. refl) effect in
      record {
        well_formed = record {
          changes =
              IsScoped-elsewhere action_table change_table env db db' refl changes_are wf.changes
                scoped;
          actions = scoped.audited;
          impacts =
              IsScoped-elsewhere action_table impact_table env db db' refl impacts_are wf.impacts
                scoped;
          actions_owned = subst (λ cs. ActionsOwned cs db'.actions) (sym changes_are) owned;
          impacts_owned =
              subst (λ cs. ImpactsOwned cs db'.impacts) (sym changes_are)
                (subst (ImpactsOwned db.changes) (sym impacts_are) wf.impacts_owned);
        };
        changes = ap (foreign change_table env) changes_are;
        actions = scoped.isolated;
        impacts = ap (foreign impact_table env) impacts_are;
        trail = IsScoped-Appends action_table env db db' scoped;
      }

  impact_step : IsAssessed env db db' → IsConfined env db db'
  impact_step a = record {
    well_formed = record {
      changes =
          IsScoped-elsewhere impact_table change_table env db db' refl a.same_changes wf.changes
            a.scoped;
      actions =
          IsScoped-elsewhere impact_table action_table env db db' refl a.same_actions wf.actions
            a.scoped;
      impacts = a.scoped.audited;
      actions_owned =
          subst (λ cs. ActionsOwned cs db'.actions) (sym a.same_changes)
            (subst (ActionsOwned db.changes) (sym a.same_actions) wf.actions_owned);
      impacts_owned = subst (λ cs. ImpactsOwned cs db'.impacts) (sym a.same_changes) a.owned;
    };
    changes = ap (foreign change_table env) a.same_changes;
    actions = ap (foreign action_table env) a.same_actions;
    impacts = a.scoped.isolated;
    trail = IsScoped-Appends impact_table env db db' a.scoped;
  }

-- If the tables of change control are well formed (distinct keys, a complete trail of changes and
-- actions, every action and impact of the organization of its change) and a row that the request
-- inserts gets a new key, then a request that succeeds leaves the changes, the actions and the
-- impacts of other organizations as they are, keeps the tables well formed, and appends to the
-- trail only rows that name its caller and its time.
pub change_request_scope :
    (env : Env) (db : Db) (r : Request) {db' : Db}
    → IsWellFormed db
    → IsNewFor env db r
    → handle env db r ≡ ok db'
    → IsConfined env db db'
unfolding handle
change_request_scope env db (create p) {db'} wf is_new h =
    let (_, is) = wrote_to-ok (create_change env db p) h in
    change_step env db db' wf (λ f. f) (Effects.create-Effect env db p is_new is)
change_request_scope env db (update id p) {db'} wf is_new h =
    let (_, is) = wrote_to-ok (update_change env db id p) h in
    change_step env db db' wf (λ f. f) (Effects.update-Effect env db id p is)
change_request_scope env db (delete id) {db'} wf is_new h =
    change_step env db db' wf (λ f. f) (Effects.delete-Effect env db id h)
change_request_scope env db (assess id p) {db'} wf is_new h =
    let (_, is) = wrote_to-ok (add_impact env db id p) h in
    impact_step env db db' wf
      (ImpactEffects.add-IsAssessed env db id wf.impacts_owned wf.impacts p is_new wf.changes is)
change_request_scope env db (reassess id impact_id p) {db'} wf is_new h =
    let (_, is) = wrote_to-ok (update_impact env db id impact_id p) h in
    impact_step env db db' wf
      (ImpactEffects.update-IsAssessed env db id wf.impacts_owned wf.impacts impact_id p is)
change_request_scope env db (drop_impact id impact_id) {db'} wf is_new h =
    impact_step env db db' wf
      (ImpactEffects.delete-IsAssessed env db id wf.impacts_owned wf.impacts impact_id h)
change_request_scope env db (plan id p) {db'} wf is_new h =
    let (_, is) = wrote_to-ok (add_action env db id p) h in
    action_step env db db' wf (λ f. f)
      (ActionEffects.add-Effect env db id wf.actions_owned p is_new wf.changes is)
change_request_scope env db (progress id action_id p) {db'} wf is_new h =
    let (_, is) = wrote_to-ok (update_action env db id action_id p) h in
    action_step env db db' wf (λ f. f)
      (ActionEffects.update-Effect env db id wf.actions_owned action_id p wf.actions is)
change_request_scope env db (drop_action id action_id) {db'} wf is_new h =
    action_step env db db' wf (λ f. f)
      (ActionEffects.delete-Effect env db id wf.actions_owned action_id wf.actions h)
