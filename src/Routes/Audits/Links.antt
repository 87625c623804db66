-- ===== src/Routes/Audits/Links.antt =====
-- The checklist item that a finding names, and what the delete of an item does to the findings.
use cron_qms.Prelude.{
  ℕ, ◌≡◌, refl, sym, ap, subst, ◌∙◌, inl, inr, Bool-cases, true, false, none, some, List, [], ◌∷◌,
  ◌==◌, is_some_of, arith, map, All, All-map, All-mapped, first, first-All,
}
use cron_qms.Models.Audit.{AuditChecklistItem, AuditFinding, finding_fields}
use cron_qms.Models.History.{HistoryRow}
use cron_qms.Core.Audit.Replay.{Shows}
use cron_qms.Core.Audit.Recorded.{IsRecorded, DistinctIds}
use cron_qms.Db.{Env}
use cron_qms.Routes.Access.{in_org}
use cron_qms.Routes.Scoped.{target, is_row}
use cron_qms.Routes.Scoped.Writes.{foreign}
use cron_qms.Routes.Scoped.Removals.{keyed_rows}
use cron_qms.Routes.Tables.More.{finding_table}
use cron_qms.Routes.Tables.Unaudited.{item_table}
use cron_qms.Routes.Audits.Items.{unlink}

-- A finding is of the organization of the item that it names.
abbrev pub Linked : List AuditChecklistItem → AuditFinding → Type 0
Linked items f =
    All (λ i. is_some_of i.id f.checklist_item_id ≡ true → f.organization_id ≡ i.organization_id)
      items

abbrev pub AreLinked : List AuditChecklistItem → List AuditFinding → Type 0
AreLinked items findings = All (Linked items) findings

-- Only the link of a finding changes.
pub record SameColumns (f f' : AuditFinding) : Type 0 where
  pub same_id : f'.id ≡ f.id
  pub same_audit : f'.audit_id ≡ f.audit_id
  pub same_org : f'.organization_id ≡ f.organization_id
  pub same_fields : finding_fields f' ≡ finding_fields f

pub unlink-SameColumns : (k : ℕ) (f : AuditFinding) → SameColumns f (unlink k f)
unfolding finding_fields
unlink-SameColumns k f = record {
  same_id = ground arith;
  same_audit = ground arith;
  same_org = ground arith;
  same_fields = ground arith;
}

unlink-miss : (k : ℕ) (f : AuditFinding) → is_some_of k f.checklist_item_id ≡ false → unlink k f ≡ f
unlink-miss k f h = ground arith

-- The findings of other organizations do not name an item of the caller's.
pub unlink-isolated :
    (env : Env) (i : AuditChecklistItem) (items : List AuditChecklistItem)
    (findings : List AuditFinding)
    → first (is_row item_table i.id) items ≡ some i
    → in_org i.organization_id env ≡ true
    → AreLinked items findings
    → foreign finding_table env (map (unlink i.id) findings) ≡ foreign finding_table env findings
unlink-isolated env i items [] found mine linked = refl
unlink-isolated env i items (f ∷ fs) found mine linked =
    let ih = unlink-isolated env i items fs found mine linked.1 in
    elim (Bool-cases (is_some_of i.id f.checklist_item_id)) [
      | inl e ↦
          let of_i =
            first-All
              (λ x.
                is_some_of x.id f.checklist_item_id ≡ true → f.organization_id ≡ x.organization_id)
              (is_row item_table i.id) items linked.0 found in
          let own : in_org f.organization_id env ≡ true = ap (λ o. in_org o env) (of_i e) ∙ mine in
          rw ((unlink-SameColumns i.id f).same_org, own, ih)
      | inr e ↦ rw (unlink-miss i.id f e, ih)
    ]

unlink-keys :
    (n k : ℕ) (fs : List AuditFinding)
    → All (λ f. (n == f.id) ≡ false) fs
    → All (λ f. (n == f.id) ≡ false) (map (unlink k) fs)
unlink-keys n k fs apart =
    All-mapped (λ f. (n == f.id) ≡ false) (unlink k) fs
      (λ f differs. rw ((unlink-SameColumns k f).same_id) differs) apart

pub unlink-DistinctIds :
    (k : ℕ) (fs : List AuditFinding)
    → DistinctIds finding_table.audited fs
    → DistinctIds finding_table.audited (map (unlink k) fs)
unlink-DistinctIds k [] ids = tt
unlink-DistinctIds k (f ∷ fs) ids = (
  subst (λ n. All (λ g. (n == g.id) ≡ false) (map (unlink k) fs))
      (sym (unlink-SameColumns k f).same_id) (unlink-keys f.id k fs ids.0),
  unlink-DistinctIds k fs ids.1,
)

-- A link is no audited column.
pub unlink-IsRecorded :
    (k : ℕ) (h : List HistoryRow) (fs : List AuditFinding)
    → IsRecorded finding_table.audited h fs
    → IsRecorded finding_table.audited h (map (unlink k) fs)
unlink-IsRecorded k h fs recorded =
    All-mapped (λ f. Shows (target finding_table f) h (finding_fields f)) (unlink k) fs
      (λ f shows.
        let same = unlink-SameColumns k f in
        subst (λ fields. Shows (target finding_table (unlink k f)) h fields) (sym same.same_fields)
          (subst (λ n. Shows (record { entity = "audit_finding"; id = n }) h (finding_fields f))
            (sym same.same_id) shows))
      recorded

unlinked-Linked :
    (i : AuditChecklistItem) (items : List AuditChecklistItem) (f : AuditFinding)
    → Linked items f
    → Linked items (unlink i.id f)
unlinked-Linked i items f linked =
    All-map
      (λ x. is_some_of x.id f.checklist_item_id ≡ true → f.organization_id ≡ x.organization_id)
      (λ x.
        is_some_of x.id (unlink i.id f).checklist_item_id ≡ true
        → (unlink i.id f).organization_id ≡ x.organization_id)
      items
      (λ x of_x names. (unlink-SameColumns i.id f).same_org ∙ of_x (still_named i.id x.id f names))
      linked
  where
    still_named :
        (k n : ℕ) (g : AuditFinding)
        → is_some_of n (unlink k g).checklist_item_id ≡ true
        → is_some_of n g.checklist_item_id ≡ true
    still_named k n g h = ground arith

pub unlink-AreLinked :
    (i : AuditChecklistItem) (items : List AuditChecklistItem) (fs : List AuditFinding)
    → AreLinked items fs
    → AreLinked items (map (unlink i.id) fs)
unlink-AreLinked i items fs linked =
    All-mapped (Linked items) (unlink i.id) fs (unlinked-Linked i items) linked

-- A finding that names no item.
pub none-Linked :
    (items : List AuditChecklistItem) (f : AuditFinding)
    → f.checklist_item_id ≡ none
    → Linked items f
none-Linked [] f h = tt
none-Linked (i ∷ is) f h = (λ names. ground arith, none-Linked is f h)

-- A finding that names an item of its own organization.
pub some-Linked :
    (items : List AuditChecklistItem) (i : AuditChecklistItem) (f : AuditFinding)
    → DistinctIds item_table.audited items
    → first (is_row item_table i.id) items ≡ some i
    → f.checklist_item_id ≡ some i.id
    → f.organization_id ≡ i.organization_id
    → Linked items f
some-Linked items i f ids found names of_i =
    All-map (λ x. (x.id == i.id) ≡ true → f.organization_id ≡ x.organization_id)
      (λ x. is_some_of x.id f.checklist_item_id ≡ true → f.organization_id ≡ x.organization_id)
      items (λ x of_x named. of_x (ground arith))
      (keyed_rows item_table (λ x. f.organization_id ≡ x.organization_id) i items ids found of_i)

pub same-Linked :
    (items : List AuditChecklistItem) (f f' : AuditFinding)
    → f'.checklist_item_id ≡ f.checklist_item_id
    → f'.organization_id ≡ f.organization_id
    → Linked items f
    → Linked items f'
same-Linked items f f' same_link same_org linked =
    All-map
      (λ x. is_some_of x.id f.checklist_item_id ≡ true → f.organization_id ≡ x.organization_id)
      (λ x. is_some_of x.id f'.checklist_item_id ≡ true → f'.organization_id ≡ x.organization_id)
      items (λ x of_x named. same_org ∙ of_x (ap (is_some_of x.id) (sym same_link) ∙ named)) linked
