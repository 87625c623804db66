-- ===== src/Routes/Audits/Effects.antt =====
-- What the requests of app/api/routes/audits.py do to the table of audits.
use cron_qms.Prelude.{ℕ, ◌≡◌, refl, false, arith, http, Result, ok, ap, ◌>>=◌, >>=-eq-ok}
use cron_qms.Models.Audit.{Audit}
use cron_qms.Core.Permissions.{audit_create, audit_update, audit_delete}
use cron_qms.Db.{Db, Env}
use cron_qms.Routes.Access.{require, require_organization, require_organization-some}
use cron_qms.Routes.Scoped.Writes.{IsFound, SameOwner, get_in_org-IsFound}
use cron_qms.Routes.Scoped.Removals.{Effect}
use cron_qms.Routes.Scoped.Ends.{saves_row, inserts_row}
use cron_qms.Routes.Tables.More.{audit_table}
use cron_qms.Routes.Audits.{
  AuditCreate, AuditUpdate, new_audit, create_audit, get_audit_in_org, apply_status, rest_updated,
  updated, update_audit, delete_audit,
}

pub audit_visible :
    (env : Env) (db : Db) (id : ℕ) {c : Audit}
    → get_audit_in_org env db id ≡ ok c
    → IsFound audit_table env db id c
audit_visible env db id found =
    get_in_org-IsFound audit_table (http 404 "Audit not found") env db id found

pub updated-SameOwner :
    (env : Env) (db : Db) (p : AuditUpdate) (c : Audit) {c' : Audit}
    → updated db p c ≡ ok c'
    → SameOwner audit_table c c'
unfolding updated rest_updated apply_status
updated-SameOwner env db p c h = ground arith

module _ (env : Env) (db : Db) {db' : Db} {fresh : Type 0} where
  pub create-Effect :
      (p : AuditCreate) {c' : Audit}
      → fresh
      → create_audit env db p ≡ ok (db', c')
      → Effect audit_table fresh env db db'
  unfolding create_audit new_audit
  create-Effect p is_fresh h =
      let (_, _, h1) = >>=-eq-ok (require audit_create env db) _ h in
      let (o, own, h2) = >>=-eq-ok (require_organization env) _ h1 in
      inserts_row audit_table env db (new_audit env p o) is_fresh
        (require_organization-some env own) refl h2

  pub update-Effect :
      (id : ℕ) (p : AuditUpdate) {c' : Audit}
      → update_audit env db id p ≡ ok (db', c')
      → Effect audit_table fresh env db db'
  unfolding update_audit
  update-Effect id p h =
      let (_, _, h1) = >>=-eq-ok (require audit_update env db) _ h in
      let (c, found, h2) = >>=-eq-ok (get_audit_in_org env db id) _ h1 in
      let (c2, up, h3) = >>=-eq-ok (updated db p c) _ h2 in
      saves_row audit_table env db id c c2 (audit_visible env db id found)
        (updated-SameOwner env db p c up) h3

  pub delete-Effect :
      (id : ℕ) → delete_audit env db id ≡ ok db' → Effect audit_table fresh env db db'
  unfolding delete_audit
  delete-Effect id h =
      let (_, _, h1) = >>=-eq-ok (require audit_delete env db) _ h in
      let (c, found, h2) = >>=-eq-ok (get_audit_in_org env db id) _ h1 in
      let gone = record c { is_active = false } in
      saves_row audit_table env db id c gone (audit_visible env db id found)
        (record { same_key = refl; same_org = refl })
        (ap (λ (r : Result Db). r >>= λ d. ok (d, gone)) h2)
