-- ===== src/Routes/Documents/Refinement.antt =====
-- The handlers of versions in app/api/routes/documents.py against the histories of one document.
pub mod Rows
pub mod Handlers
pub mod Documents
pub mod Commits
pub mod Approval
pub mod Steps
use cron_qms.Prelude.{
  ℕ, String, ◌≡◌, refl, sym, ap, subst, ◌∙◌, Bool, true, false, some, List, [], ◌∷◌, ◌++◌, any,
  arith, Result, ok, http, first, first-holds, first-overwrite, >>=-eq-ok, ok-pair,
}
use cron_qms.Models.Document.{Document, DocumentVersion, versions_of}
use cron_qms.Core.Audit.{Session}
use cron_qms.Core.Audit.Recorded.{DistinctIds}
use cron_qms.Core.Permissions.{
  document_update, document_review, document_approve, document_obsolete,
}
use cron_qms.Db.{Db, Env, session_of}
use cron_qms.Services.DocumentWorkflow
use cron_qms.Services.DocumentWorkflow.{submit_for_review, sign_off_review}
use cron_qms.Routes.Access.{require}
use cron_qms.Routes.Scoped.{is_row, save, insert}
use cron_qms.Routes.Scoped.Writes.{get_in_org-IsFound, rows-save}
use cron_qms.Routes.Tables.{document_table, version_table}
use cron_qms.Routes.Documents.{get_document_in_org}
use cron_qms.Routes.Documents.Versions
use cron_qms.Routes.Documents.Versions.{get_version_in_org, with_version, Request, handle}
use cron_qms.Routes.Documents.Lifecycle
use cron_qms.Routes.Documents.Lifecycle.{Controlled, Action, find, perform, is_version}
use cron_qms.Routes.Documents.Refinement.Rows.{first-versions_of, versions_of-overwrite}

-- The database shows a document with its versions.
pub record Holds (db : Db) (s : Controlled) : Type 0 where
  pub document_row : first (is_row document_table s.document.id) db.documents ≡ some s.document
  pub version_rows : versions_of s.document.id db.versions ≡ s.versions

-- What a request does to the document that it is about.
abbrev pub action : Env → ℕ → Request → Action
action env max (Versions.create document_id file summary) = Lifecycle.upload env max file summary
action env max (Versions.submit id) = Lifecycle.submit id
action env max (Versions.review id) = Lifecycle.review env id
action env max (Versions.approve id) = Lifecycle.approve env id
action env max (Versions.reject id reason) = Lifecycle.reject env (session_of env) id reason
action env max (Versions.obsolete id reason) = Lifecycle.retire env (session_of env) id reason

module _ (env : Env) (db : Db) (s : Controlled) (holds : Holds db s) where
  -- The version that a request asks for is found in the history.
  pub find-held :
      (id : ℕ) {v : DocumentVersion}
      → get_version_in_org env db id ≡ ok v
      → v.document_id ≡ s.document.id
      → (find s id ≡ ok v) × (first (is_row version_table v.id) db.versions ≡ some v)
  unfolding find
  find-held id {v} found own =
      let is_found =
        get_in_org-IsFound version_table (http 404 "Document version not found") env db id found in
      let asked =
        subst (λ k. first (is_row version_table k) db.versions ≡ some v) is_found.asked
          is_found.found in
      let among = first-versions_of s.document.id db.versions id asked own in
      let held = subst (λ rows. first (is_version id) rows ≡ some v) holds.version_rows among in
      (rw held refl, is_found.found)

  -- A commit of that version is a write of it in the history.
  pub saved-Holds :
      (session : Session) (v v' : DocumentVersion)
      → first (is_row version_table v.id) db.versions ≡ some v
      → v.document_id ≡ s.document.id
      → v'.document_id ≡ s.document.id
      → v'.id ≡ v.id
      → Holds
          (save version_table env session db v v')
          (record s { versions = with_version v' s.versions })
  unfolding save
  saved-Holds session v v' found own own' same = record {
    document_row = holds.document_row;
    version_rows =
        versions_of-overwrite s.document.id db.versions v v' found own own' same
        ∙ ap (with_version v') holds.version_rows;
  }
