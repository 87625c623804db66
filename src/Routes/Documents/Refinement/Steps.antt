-- ===== src/Routes/Documents/Refinement/Steps.antt =====
-- Every request for a version in app/api/routes/documents.py is a step of a document's history.
use cron_qms.Prelude.{
  ℕ, String, Option, ◌≡◌, sym, ap, subst, ◌∙◌, false, any, arith, http, ok, List, >>=-eq-ok,
  ok-pair,
}
use cron_qms.Models.Document.{Document, DocumentVersion, versions_of}
use cron_qms.Core.Audit.Recorded.{DistinctIds}
use cron_qms.Core.Permissions.{document_update}
use cron_qms.Db.{Db, Env}
use cron_qms.Routes.Access.{require}
use cron_qms.Routes.Scoped.Writes.{get_in_org-IsFound}
use cron_qms.Routes.Tables.{document_table, version_table}
use cron_qms.Routes.Documents.{get_document_in_org}
use cron_qms.Routes.Documents.Versions
use cron_qms.Routes.Documents.Versions.{
  UploadFile, revise, new_version, store_upload, create_version, Request, handle,
}
use cron_qms.Routes.Documents.Lifecycle
use cron_qms.Routes.Documents.Lifecycle.{Controlled, perform, is_version, IsControlled}
use cron_qms.Routes.Documents.Lifecycle.Control.{perform-IsControlled}
use cron_qms.Routes.Documents.Refinement.{Holds, action}
use cron_qms.Routes.Documents.Refinement.Handlers.{Steps, submit-Steps, review-Steps, reject-Steps}
use cron_qms.Routes.Documents.Refinement.Documents.{held_document, obsolete-Steps}
use cron_qms.Routes.Documents.Refinement.Approval.{approve-Steps, create-Steps}

revised_document :
    (env : Env) (max : ℕ) (d : Document) (versions : List DocumentVersion) (file : UploadFile)
    (summary : Option String) {v : DocumentVersion}
    → revise env max d versions file summary ≡ ok v
    → v.document_id ≡ d.id
unfolding revise store_upload new_version
revised_document env max d versions file summary h = ground arith

module _ (env : Env) (max : ℕ) (db : Db) (s : Controlled) (holds : Holds db s)
    (distinct : DistinctIds version_table.audited db.versions)
    (fresh : any (is_version env.new_id) s.versions ≡ false) {db' : Db} {v' : DocumentVersion}
    (own : v'.document_id ≡ s.document.id) where
  upload-Steps :
      (document_id : ℕ) (file : UploadFile) (summary : Option String)
      → create_version env max db document_id file summary ≡ ok (db', v')
      → Steps db' s (Lifecycle.upload env max file summary)
  unfolding create_version
  upload-Steps document_id file summary h =
      let (_, _, h1) = >>=-eq-ok (require document_update env db) _ h in
      let (d, found, h2) = >>=-eq-ok (get_document_in_org env db document_id) _ h1 in
      let (v, done, h3) =
        >>=-eq-ok (revise env max d (versions_of d.id db.versions) file summary) _ h2 in
      let is_v = (ok-pair _ db' v v' h3).1 in
      let asked =
        (get_in_org-IsFound document_table (http 404 "Document not found") env db document_id
          found).asked in
      let own1 : document_id ≡ s.document.id =
        sym asked
        ∙ sym (revised_document env max d (versions_of d.id db.versions) file summary done)
        ∙ ap (λ (x : DocumentVersion). x.document_id) is_v
        ∙ own in
      let is = held_document env db s document_id holds found own1 in
      create-Steps env db s holds distinct own max file summary v fresh
        (subst (λ x. revise env max x (versions_of x.id db.versions) file summary ≡ ok v) is done)
        h3

  handle-Steps : (r : Request) → handle env max db r ≡ ok (db', v') → Steps db' s (action env max r)
  unfolding handle
  handle-Steps (Versions.create document_id file summary) h =
      upload-Steps document_id file summary h
  handle-Steps (Versions.submit id) h = submit-Steps env db s holds own id h
  handle-Steps (Versions.review id) h = review-Steps env db s holds own id h
  handle-Steps (Versions.approve id) h = approve-Steps env db s holds distinct own id h
  handle-Steps (Versions.reject id reason) h = reject-Steps env db s holds own id reason h
  handle-Steps (Versions.obsolete id reason) h = obsolete-Steps env db s holds own id reason h

-- Where the database shows a controlled document with its versions, the keys of the table of
-- versions are distinct and a new version gets a new key, a request that succeeds and answers with a
-- version of this document does what the rules do to the document alone: the new database shows
-- the document and the versions that they give, and the document stays controlled.
pub handle-perform :
    (env : Env) (max : ℕ) (db : Db) (s : Controlled) (r : Request) {db' : Db} {v' : DocumentVersion}
    → Holds db s
    → IsControlled s
    → DistinctIds version_table.audited db.versions
    → any (is_version env.new_id) s.versions ≡ false
    → handle env max db r ≡ ok (db', v')
    → v'.document_id ≡ s.document.id
    → (s' : Controlled) × (perform s (action env max r) ≡ ok s') × Holds db' s' × IsControlled s'
handle-perform env max db s r holds controlled distinct fresh h own =
    let (s', performs, holds') = handle-Steps env max db s holds distinct fresh own r h in
    (s', performs, holds', perform-IsControlled s controlled (action env max r) performs)
