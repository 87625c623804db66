-- ===== src/Routes/Documents/Scope.antt =====
-- The organization and the audit trail in app/api/routes/documents.py: the requests that write one
-- document.
use cron_qms.Prelude.{ℕ, false, ◌≡◌, refl, List, ◌++◌, All, arith, Error, http, ok, >>=-eq-ok}
use cron_qms.Models.Document.{Document}
use cron_qms.Models.History.{HistoryRow}
use cron_qms.Core.Permissions.{document_create, document_update, document_delete}
use cron_qms.Db.{Db, Env, session_of}
use cron_qms.Routes.Access.{require, require_organization, require_organization-some}
use cron_qms.Routes.Scoped.Writes.{
  Write, SameOwner, saved_by, inserted_by, session_of-actor, foreign, Write-isolated,
}
use cron_qms.Routes.Scoped.Trail.{IsBy, IsNewKey, IsAudited, Write-appends, Write-IsAudited}
use cron_qms.Routes.Tables.{document_table}
use cron_qms.Routes.Documents.{
  DocumentCreate, DocumentUpdate, get_document_in_org, new_document, updated, create_document,
  update_document, delete_document, Request, create, update, delete, handle,
}

abbrev missing : Error
missing = http 404 "Document not found"

updated-SameOwner :
    (p : DocumentUpdate) (d : Document) {d' : Document}
    → updated p d ≡ ok d'
    → SameOwner document_table d d'
unfolding updated
updated-SameOwner p d h = ground arith

module _ (env : Env) (db : Db) {db' : Db} {d' : Document} where
  create-Write :
      (p : DocumentCreate)
      → create_document env db p ≡ ok (db', d')
      → Write document_table env db db' d'
  unfolding create_document
  create-Write p h =
      let (_, _, h1) = >>=-eq-ok (require document_create env db) _ h in
      let (o, own, h2) = >>=-eq-ok (require_organization env) _ h1 in
      inserted_by document_table env db (new_document env p o) (require_organization-some env own)
        refl h2

  update-Write :
      (id : ℕ) (p : DocumentUpdate)
      → update_document env db id p ≡ ok (db', d')
      → Write document_table env db db' d'
  unfolding update_document
  update-Write id p h =
      let (_, _, h1) = >>=-eq-ok (require document_update env db) _ h in
      let (d, found, h2) = >>=-eq-ok (get_document_in_org env db id) _ h1 in
      let (d2, up, h3) = >>=-eq-ok (updated p d) _ h2 in
      saved_by document_table env db missing id (session_of env) d d2 found (session_of-actor env)
        (updated-SameOwner p d up) h3

  delete-Write :
      (id : ℕ) → delete_document env db id ≡ ok (db', d') → Write document_table env db db' d'
  unfolding delete_document
  delete-Write id h =
      let (_, _, h1) = >>=-eq-ok (require document_delete env db) _ h in
      let (d, found, h2) = >>=-eq-ok (get_document_in_org env db id) _ h1 in
      saved_by document_table env db missing id (session_of env) d (record d { is_active = false })
        found (session_of-actor env) (record { same_key = refl; same_org = refl }) h2

  document-Write :
      (r : Request) → handle env db r ≡ ok (db', d') → Write document_table env db db' d'
  unfolding handle
  document-Write (create p) h = create-Write p h
  document-Write (update id p) h = update-Write id p h
  document-Write (delete id) h = delete-Write id h

-- A request to create, update or delete a document that succeeds leaves the documents of other
-- organizations as they are, keeps the trail of documents complete, if it was complete before and
-- a new document gets a new key, and appends to it only rows that name its caller and the document
-- that it returns.
pub document_request_scope :
    (env : Env) (db : Db) (r : Request) {db' : Db} {d : Document}
    → IsNewKey document_table env db
    → IsAudited document_table db
    → handle env db r ≡ ok (db', d)
    → (foreign document_table env db'.documents ≡ foreign document_table env db.documents)
      × IsAudited document_table db'
      × ((rows : List HistoryRow) × (db'.history ≡ db.history ++ rows)
          × All (IsBy document_table env d) rows)
document_request_scope env db r {db'} {d} new_key audited h =
    let writes = document-Write env db r h in
    (
      Write-isolated document_table env db db' d writes,
      Write-IsAudited document_table env db db' d new_key audited writes,
      Write-appends document_table env db db' d writes,
    )
