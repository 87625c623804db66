-- ===== src/Routes/Changes/Effects.antt =====
-- What the requests of app/api/routes/changes.py do to the table of changes.
use cron_qms.Prelude.{ℕ, ◌≡◌, refl, false, arith, http, Result, ok, ap, ◌>>=◌, >>=-eq-ok}
use cron_qms.Models.Change.{ChangeRequest}
use cron_qms.Core.Permissions.{change_create, change_update, change_delete}
use cron_qms.Db.{Db, Env}
use cron_qms.Routes.Access.{require, require_organization, require_organization-some}
use cron_qms.Routes.Scoped.Writes.{IsFound, SameOwner, get_in_org-IsFound}
use cron_qms.Routes.Scoped.Removals.{Effect}
use cron_qms.Routes.Scoped.Ends.{saves_row, inserts_row}
use cron_qms.Routes.Tables.More.{change_table}
use cron_qms.Routes.Changes.{
  ChangeRequestCreate, ChangeRequestUpdate, new_change, create_change, get_change_in_org,
  apply_status, rest_updated, updated, update_change, delete_change,
}

pub change_visible :
    (env : Env) (db : Db) (id : ℕ) {c : ChangeRequest}
    → get_change_in_org env db id ≡ ok c
    → IsFound change_table env db id c
change_visible env db id found =
    get_in_org-IsFound change_table (http 404 "Change request not found") env db id found

pub updated-SameOwner :
    (env : Env) (db : Db) (p : ChangeRequestUpdate) (c : ChangeRequest) {c' : ChangeRequest}
    → updated env db p c ≡ ok c'
    → SameOwner change_table c c'
unfolding updated rest_updated apply_status
updated-SameOwner env db p c h = ground arith

module _ (env : Env) (db : Db) {db' : Db} {fresh : Type 0} where
  pub create-Effect :
      (p : ChangeRequestCreate) {c' : ChangeRequest}
      → fresh
      → create_change env db p ≡ ok (db', c')
      → Effect change_table fresh env db db'
  unfolding create_change new_change
  create-Effect p is_fresh h =
      let (_, _, h1) = >>=-eq-ok (require change_create env db) _ h in
      let (o, own, h2) = >>=-eq-ok (require_organization env) _ h1 in
      inserts_row change_table env db (new_change env p o) is_fresh
        (require_organization-some env own) refl h2

  pub update-Effect :
      (id : ℕ) (p : ChangeRequestUpdate) {c' : ChangeRequest}
      → update_change env db id p ≡ ok (db', c')
      → Effect change_table fresh env db db'
  unfolding update_change
  update-Effect id p h =
      let (_, _, h1) = >>=-eq-ok (require change_update env db) _ h in
      let (c, found, h2) = >>=-eq-ok (get_change_in_org env db id) _ h1 in
      let (c2, up, h3) = >>=-eq-ok (updated env db p c) _ h2 in
      saves_row change_table env db id c c2 (change_visible env db id found)
        (updated-SameOwner env db p c up) h3

  pub delete-Effect :
      (id : ℕ) → delete_change env db id ≡ ok db' → Effect change_table fresh env db db'
  unfolding delete_change
  delete-Effect id h =
      let (_, _, h1) = >>=-eq-ok (require change_delete env db) _ h in
      let (c, found, h2) = >>=-eq-ok (get_change_in_org env db id) _ h1 in
      let gone = record c { is_active = false } in
      saves_row change_table env db id c gone (change_visible env db id found)
        (record { same_key = refl; same_org = refl })
        (ap (λ (r : Result Db). r >>= λ d. ok (d, gone)) h2)
