-- ===== src/Routes/Audits/FindingEffects.antt =====
-- What the requests for the findings of an audit do to the table of findings.
use cron_qms.Prelude.{
  ℕ, ◌≡◌, refl, sym, ap, subst, ◌∙◌, inl, inr, not, some, arith, [], ◌∷◌, ◌==◌, Option-cases,
  All-append, All-filter, first-All, overwrite-All, Error, http, ok, ok-pair, ok-injective,
  >>=-eq-ok,
}
use cron_qms.Models.Audit.{Audit, AuditFinding}
use cron_qms.Core.Permissions.{audit_conduct}
use cron_qms.Db.{Db, Env, session_of}
use cron_qms.Routes.Access.{require}
use cron_qms.Routes.Scoped.{is_row, save, insert}
use cron_qms.Routes.Scoped.Writes.{IsFound, rows-insert, rows-save}
use cron_qms.Routes.Scoped.Removals.{Effect, rows-remove}
use cron_qms.Routes.Tables.More.{audit_table, finding_table}
use cron_qms.Routes.Tables.Unaudited.{item_table}
use cron_qms.Routes.Nested.Writes.{child_of, child_org, child_inserted, child_saved, child_removed}
use cron_qms.Routes.Audits.{get_audit_in_org}
use cron_qms.Routes.Audits.Effects.{audit_visible}
use cron_qms.Routes.Audits.Items.{get_item_in_audit}
use cron_qms.Routes.Audits.Findings.{
  FindingCreate, FindingUpdate, get_finding_in_audit, item_known, new_finding, add_finding,
  updated_finding, update_finding, delete_finding,
}
use cron_qms.Routes.Audits.Links.{Linked, AreLinked, none-Linked, some-Linked, same-Linked}
use cron_qms.Routes.Audits.WellFormed.{FindingsOwned, IsWellFormed}

abbrev missing : Error
missing = http 404 "Finding not found"

-- A finding stays with its audit and in its organization.
record SamePlace (a a' : AuditFinding) : Type 0 where
  pub same_id : a'.id ≡ a.id
  pub same_audit : a'.audit_id ≡ a.audit_id
  pub same_org : a'.organization_id ≡ a.organization_id
  pub same_link : a'.checklist_item_id ≡ a.checklist_item_id

updated_finding-SamePlace :
    (db : Db) (p : FindingUpdate) (c : Audit) (a : AuditFinding) {a' : AuditFinding}
    → updated_finding db p c a ≡ ok a'
    → SamePlace a a'
unfolding updated_finding
updated_finding-SamePlace db p c a h = ground arith

-- What a request for a finding does: the table of findings, whose rows still belong to their audits
-- and to the items that they name.
abbrev pub FindingEffect : Type 0 → Env → Db → Db → Type 0
FindingEffect fresh env db db' =
    Effect finding_table fresh env db db'
    × FindingsOwned db.audits db'.findings
    × AreLinked db.items db'.findings

item_known-Linked :
    (env : Env) (db : Db) (id : ℕ) (a : Audit) (f : AuditFinding)
    → IsWellFormed db
    → IsFound audit_table env db id a
    → item_known db a f.checklist_item_id ≡ ok tt
    → f.organization_id ≡ a.organization_id
    → Linked db.items f
item_known-Linked env db id a f wf a_found known of_a = elim (Option-cases f.checklist_item_id) [
  | inl is_none ↦ none-Linked db.items f is_none
  | inr (k, is_k) ↦
      let known_k : item_known db a (some k) ≡ ok tt = ap (item_known db a) (sym is_k) ∙ known in
      let (i, is_child, _) = >>=-eq-ok (get_item_in_audit db a k) _ known_k in
      let i_found =
        child_of audit_table item_table (λ x. x.audit_id) (λ x. refl) env db id a_found
          (http 404 "Checklist item not found") k wf.items wf.items_owned is_child in
      let of_item =
        child_org audit_table item_table (λ x. x.audit_id) (λ x. refl) env db id a_found
          (http 404 "Checklist item not found") k wf.items wf.items_owned is_child in
      some-Linked db.items i f wf.items.keys i_found.found (is_k ∙ ap some (sym i_found.asked))
        (of_a ∙ sym of_item)
]

module _ (env : Env) (db : Db) {db' : Db} {fresh : Type 0} (id : ℕ) (wf : IsWellFormed db) where
  pub add-FindingEffect :
      (p : FindingCreate) {a' : AuditFinding}
      → fresh
      → add_finding env db id p ≡ ok (db', a')
      → FindingEffect fresh env db db'
  unfolding add_finding new_finding
  add-FindingEffect p {a'} is_fresh h =
      let (_, _, h1) = >>=-eq-ok (require audit_conduct env db) _ h in
      let (a, found, h2) = >>=-eq-ok (get_audit_in_org env db id) _ h1 in
      let (_, known, h3) = >>=-eq-ok (item_known db a p.checklist_item_id) _ h2 in
      let a_found = audit_visible env db id found in
      let f = new_finding env a p in
      let writes = (ok-pair (insert finding_table env (session_of env) db f) db' f a' h3).0 in
      let (effect, owned) =
        child_inserted audit_table finding_table (λ x. x.audit_id) (λ x. refl) env db id a_found f
          is_fresh wf.audits wf.findings_owned refl refl refl h3 in
      (
        effect,
        owned,
        subst (AreLinked db.items)
            (sym (rows-insert finding_table env db db f (session_of env))
              ∙ ap (λ (d : Db). d.findings) writes)
            (All-append (Linked db.items) db.findings (f ∷ []) wf.linked
              (item_known-Linked env db id a f wf a_found known refl, tt)),
      )

  pub update-FindingEffect :
      (finding_id : ℕ) (p : FindingUpdate) {a' : AuditFinding}
      → update_finding env db id finding_id p ≡ ok (db', a')
      → FindingEffect fresh env db db'
  unfolding update_finding
  update-FindingEffect finding_id p {a'} h =
      let (_, _, h1) = >>=-eq-ok (require audit_conduct env db) _ h in
      let (a, found, h2) = >>=-eq-ok (get_audit_in_org env db id) _ h1 in
      let (f, is_child, h3) = >>=-eq-ok (get_finding_in_audit db a finding_id) _ h2 in
      let (f2, up, h4) = >>=-eq-ok (updated_finding db p a f) _ h3 in
      let same = updated_finding-SamePlace db p a f up in
      let a_found = audit_visible env db id found in
      let f_found =
        child_of audit_table finding_table (λ x. x.audit_id) (λ x. refl) env db id a_found missing
          finding_id wf.findings wf.findings_owned is_child in
      let f_linked =
        first-All (Linked db.items) (is_row finding_table f.id) db.findings wf.linked
          f_found.found in
      let writes = (ok-pair (save finding_table env (session_of env) db f f2) db' f2 a' h4).0 in
      let (effect, owned) =
        child_saved audit_table finding_table (λ x. x.audit_id) (λ x. refl) env db id a_found
          missing finding_id wf.findings wf.findings_owned is_child f2
          (record { same_key = same.same_id; same_org = same.same_org }) same.same_audit h4 in
      (
        effect,
        owned,
        subst (AreLinked db.items)
            (sym (rows-save finding_table env db db f2 (session_of env) f)
              ∙ ap (λ (d : Db). d.findings) writes)
            (overwrite-All (Linked db.items) (is_row finding_table f.id) f2 db.findings
              (same-Linked db.items f f2 same.same_link same.same_org f_linked) wf.linked),
      )

  pub delete-FindingEffect :
      (finding_id : ℕ)
      → delete_finding env db id finding_id ≡ ok db'
      → FindingEffect fresh env db db'
  unfolding delete_finding
  delete-FindingEffect finding_id h =
      let (_, _, h1) = >>=-eq-ok (require audit_conduct env db) _ h in
      let (a, found, h2) = >>=-eq-ok (get_audit_in_org env db id) _ h1 in
      let (f, is_child, h3) = >>=-eq-ok (get_finding_in_audit db a finding_id) _ h2 in
      let (effect, owned) =
        child_removed audit_table finding_table (λ x. x.audit_id) (λ x. refl) env db id
          (audit_visible env db id found) missing finding_id wf.findings wf.findings_owned is_child
          h3 in
      (
        effect,
        owned,
        subst (AreLinked db.items)
            (sym (rows-remove finding_table env db db f)
              ∙ ap (λ (d : Db). d.findings) (ok-injective h3))
            (All-filter (Linked db.items) (λ (x : AuditFinding). not (x.id == f.id)) db.findings
              wf.linked),
      )
