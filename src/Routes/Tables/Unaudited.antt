-- ===== src/Routes/Tables/Unaudited.antt =====
-- The impacts of a change and the checklist items of an audit: tables that are not registered for
-- auditing, as scoped tables without an audited column.
use mathlib.Core.List.{append-nil}
use cron_qms.Prelude.{
  ◌≡◌, refl, ap, ◌∙◌, true, [], ◌∷◌, ◌++◌, overwrite, overwrite-same, ◌==◌, Bool, ◌&&◌, arith,
}
use cron_qms.Models.Change.{ChangeImpact}
use cron_qms.Models.Audit.{AuditChecklistItem}
use cron_qms.Core.Audit.{Session, after_insert, after_update}
use cron_qms.Db.{Db, Env}
use cron_qms.Routes.Scoped.{Scoped, save, insert}

abbrev pub impact_table : Scoped ChangeImpact
impact_table = record {
  audited = record {
    entity = "change_impact";
    id = λ i. i.id;
    fields = λ i. [];
    same_names = λ a b. tt;
    distinct = λ a. tt;
  };
  organization = λ i. i.organization_id;
  active = λ i. true;
  rows = λ db. db.impacts;
  put = λ db xs h. record db { impacts = xs; history = h };
  rows-put = λ db xs h. refl;
  history-put = λ db xs h. refl;
}

abbrev pub item_table : Scoped AuditChecklistItem
item_table = record {
  audited = record {
    entity = "audit_checklist_item";
    id = λ i. i.id;
    fields = λ i. [];
    same_names = λ a b. tt;
    distinct = λ a. tt;
  };
  organization = λ i. i.organization_id;
  active = λ i. true;
  rows = λ db. db.items;
  put = λ db xs h. record db { items = xs; history = h };
  rows-put = λ db xs h. refl;
  history-put = λ db xs h. refl;
}

and_true : (b : Bool) → (b && true) ≡ b
and_true b = ground arith

-- A write of such a row leaves no trail.
pub impact-insert :
    (env : Env) (s : Session) (db : Db) (i : ChangeImpact)
    → insert impact_table env s db i ≡ record db { impacts = db.impacts ++ i ∷ [] }
unfolding insert after_insert
impact-insert env s db i =
    ap (λ h. record db { impacts = db.impacts ++ i ∷ []; history = h }) (append-nil db.history)

pub impact-save :
    (env : Env) (s : Session) (db : Db) (old new : ChangeImpact)
    → save impact_table env s db old new
      ≡ record db { impacts = overwrite (λ i. i.id == old.id) new db.impacts }
unfolding save after_update
impact-save env s db old new =
    ap
      (λ h. record db {
        impacts = overwrite (λ i. i.id == old.id && true) new db.impacts;
        history = h;
      })
      (append-nil db.history)
    ∙ ap (λ xs. record db { impacts = xs })
        (overwrite-same (λ (i : ChangeImpact). i.id == old.id && true) (λ i. i.id == old.id) new
          db.impacts (λ i. and_true (i.id == old.id)))

pub item-insert :
    (env : Env) (s : Session) (db : Db) (i : AuditChecklistItem)
    → insert item_table env s db i ≡ record db { items = db.items ++ i ∷ [] }
unfolding insert after_insert
item-insert env s db i =
    ap (λ h. record db { items = db.items ++ i ∷ []; history = h }) (append-nil db.history)

pub item-save :
    (env : Env) (s : Session) (db : Db) (old new : AuditChecklistItem)
    → save item_table env s db old new
      ≡ record db { items = overwrite (λ i. i.id == old.id) new db.items }
unfolding save after_update
item-save env s db old new =
    ap
      (λ h. record db { items = overwrite (λ i. i.id == old.id && true) new db.items; history = h })
      (append-nil db.history)
    ∙ ap (λ xs. record db { items = xs })
        (overwrite-same (λ (i : AuditChecklistItem). i.id == old.id && true) (λ i. i.id == old.id)
          new db.items (λ i. and_true (i.id == old.id)))
