-- ===== src/Routes/Audits/Closing.antt =====
-- The gate on closing an audit in app/api/routes/audits.py.
use cron_qms.Prelude.{
  List, ◌≢◌, subst, not, All, Any, Bool-cases, ◌==◌, true, count-filter-Any, count-filter-All, ℕ,
  false, ◌&&◌, ◌≡◌, ◌↔◌, ◌⊎◌, inl, inr, sym, ap, ◌∙◌, ◌<◌, Option, none, some, arith, ok, err, http,
  >>=-eq-ok, ok-pair,
}
use cron_qms.Models.Audit.{
  Audit, AuditStatus, AuditFinding, closed, closed_finding, is_closed, findings_of,
  open_findings_count,
}
use cron_qms.Core.Permissions.{audit_update}
use cron_qms.Db.{Db, Env, session_of}
use cron_qms.Routes.Access.{require, asked_for}
use cron_qms.Routes.Scoped.{save}
use cron_qms.Routes.Tables.More.{audit_table}
use cron_qms.Routes.Audits.Effects.{updated-SameOwner}
use cron_qms.Routes.Audits.{
  AuditUpdate, get_audit_in_org, is_closing, apply_status, apply_asked, retyped, rest_updated,
  updated, update_audit,
}

abbrev open_findings : Db → ℕ → ℕ
open_findings db id = open_findings_count (findings_of id db.findings)

-- A finding of the audit that is not closed.
abbrev pub IsOpenFor : ℕ → AuditFinding → Type 0
IsOpenFor id f = (f.audit_id ≡ id) × (f.status ≢ closed_finding)

-- The audit is not closed, or no finding of it is open.
abbrev pub IsResolved : List AuditFinding → AuditStatus → ℕ → Type 0
IsResolved findings status id =
    (status ≢ closed)
    ⊎ All (λ (f : AuditFinding). (f.audit_id ≢ id) ⊎ (f.status ≡ closed_finding)) findings

open_test :
    (id : ℕ) (f : AuditFinding)
    → ((f.audit_id == id && not (is_closed f.status)) ≡ true) ↔ IsOpenFor id f
open_test id f = (λ h. ground arith, λ h. ground arith)

closed_test :
    (id : ℕ) (f : AuditFinding)
    → (f.audit_id == id && not (is_closed f.status)) ≡ false
    → (f.audit_id ≢ id) ⊎ (f.status ≡ closed_finding)
closed_test id f h = ground arith

apply_status-IsResolved :
    (db : Db) (a : Audit) (s : AuditStatus) {a' : Audit}
    → apply_status db a s ≡ ok a'
    → IsResolved db.findings s a.id
unfolding apply_status open_findings_count
apply_status-IsResolved db a s h = elim (Bool-cases (is_closing s)) [
  | inl e ↦ inr (
      count-filter-All (λ f. not (is_closed f.status)) (λ f. f.audit_id == a.id)
        (λ (f : AuditFinding). (f.audit_id ≢ a.id) ⊎ (f.status ≡ closed_finding)) db.findings
        (closed_test a.id) (ground arith))
  | inr e ↦ inl (λ is. ground arith)
]

apply_asked-status :
    (db : Db) (a : Audit) (s : Option AuditStatus) {a' : Audit}
    → apply_asked db a s ≡ ok a'
    → (a'.status ≡ a.status) ⊎ ((s ≡ some a'.status) × IsResolved db.findings a'.status a.id)
unfolding apply_status
apply_asked-status db a none h = inl (ground arith)
apply_asked-status db a (some s) {a'} h =
    let is : a'.status ≡ s = ground arith in
    inr (
      ap some (sym is),
      subst (λ x. IsResolved db.findings x a.id) (sym is) (apply_status-IsResolved db a s h),
    )

rest_keeps_status :
    (p : AuditUpdate) (moved : Audit) {a' : Audit}
    → rest_updated p moved ≡ ok a'
    → a'.status ≡ moved.status
unfolding rest_updated
rest_keeps_status p moved h = ground arith

updated-status :
    (db : Db) (p : AuditUpdate) (a : Audit) {a' : Audit}
    → updated db p a ≡ ok a'
    → (a'.status ≡ a.status)
      ⊎ ((asked_for p.status ≡ some a'.status) × IsResolved db.findings a'.status a.id)
unfolding updated
updated-status db p a {a'} h =
    let (moved, is_moved, h1) = >>=-eq-ok (apply_asked db (retyped p a) (asked_for p.status)) _ h in
    let same = rest_keeps_status p moved h1 in
    elim (apply_asked-status db (retyped p a) (asked_for p.status) is_moved) [
      | inl e ↦ inl (same ∙ e)
      | inr (asked, gated) ↦
          inr (
            asked ∙ ap some (sym same),
            subst (λ x. IsResolved db.findings x a.id) (sym same) gated,
          )
    ]

-- An update of an audit that succeeds either leaves the status as it is, or gives it the status
-- that the payload asks for. In that case the new status is not Closed or, in the database that the
-- request leaves, every finding of the audit is Closed.
pub update_audit-status :
    (env : Env) (db : Db) (id : ℕ) (p : AuditUpdate) {db' : Db} {a' : Audit}
    → update_audit env db id p ≡ ok (db', a')
    → (a : Audit) × (get_audit_in_org env db id ≡ ok a)
      × ((a'.status ≡ a.status)
          ⊎ ((asked_for p.status ≡ some a'.status) × IsResolved db'.findings a'.status a'.id))
unfolding update_audit save
update_audit-status env db id p {db'} {a'} h =
    let (_, _, h1) = >>=-eq-ok (require audit_update env db) _ h in
    let (a, found, h2) = >>=-eq-ok (get_audit_in_org env db id) _ h1 in
    let (a2, up, h3) = >>=-eq-ok (updated db p a) _ h2 in
    let (writes, is) = ok-pair (save audit_table env (session_of env) db a a2) db' a2 a' h3 in
    let same_id : a'.id ≡ a.id =
      ap (λ (x : Audit). x.id) (sym is) ∙ (updated-SameOwner env db p a up).same_key in
    let same_findings = ap (λ (d : Db). d.findings) (sym writes) in
    let same_status = ap (λ (x : Audit). x.status) is in
    (
      a,
      found,
      elim (updated-status db p a up) [
        | inl e ↦ inl (sym same_status ∙ e)
        | inr (asked, gated) ↦ inr (
          asked ∙ ap some same_status,
          subst (λ k. IsResolved db'.findings a'.status k) (sym same_id)
              (subst (λ fs. IsResolved fs a'.status a.id) (sym same_findings)
                (subst (λ x. IsResolved db.findings x a.id) same_status gated)),
        )
      ],
    )

conflict_count_iff :
    (env : Env) (db : Db) (id : ℕ) (p : AuditUpdate) {a : Audit}
    → require audit_update env db ≡ ok tt
    → get_audit_in_org env db id ≡ ok a
    → (update_audit env db id p ≡ err (http 409 "Cannot close an audit with open findings"))
      ↔ ((asked_for p.status ≡ some closed) × (0 < open_findings db a.id))
unfolding update_audit updated rest_updated apply_status
conflict_count_iff env db id p allowed found = (λ h. ground arith, λ (a, b). ground arith)

-- Where the caller may update audits and the audit is found, the update is refused with the
-- conflict of open findings exactly if it asks to close the audit while some finding of the audit
-- is not Closed.
pub update_audit_conflict_iff :
    (env : Env) (db : Db) (id : ℕ) (p : AuditUpdate) {a : Audit}
    → require audit_update env db ≡ ok tt
    → get_audit_in_org env db id ≡ ok a
    → (update_audit env db id p ≡ err (http 409 "Cannot close an audit with open findings"))
      ↔ ((asked_for p.status ≡ some closed) × Any (IsOpenFor a.id) db.findings)
unfolding open_findings_count
update_audit_conflict_iff env db id p {a} allowed found =
    let counted = conflict_count_iff env db id p allowed found in
    let pending =
      count-filter-Any (λ f. not (is_closed f.status)) (λ f. f.audit_id == a.id) (IsOpenFor a.id)
        db.findings (open_test a.id) in
    (
      λ h. let (asked, left) = counted.0 h in (asked, pending.0 left),
      λ h. counted.1 (h.0, pending.1 h.1),
    )
