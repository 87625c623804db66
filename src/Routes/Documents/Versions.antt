-- ===== src/Routes/Documents/Versions.antt =====
-- The versions of a document in app/api/routes/documents.py.
use cron_qms.Prelude.{
  ℕ, suc, String, Bool, true, false, Option, none, some, List, [], ◌∷◌, any, overwrite, ltb, ◌==◌,
  if◌then◌else◌, Result, ok, http, raise_if, ◌>>=◌, ◌>>◌,
}
use cron_qms.Text.{is_empty}
use cron_qms.Models.Document.{
  Document, DocumentVersion, draft, in_review, pending_approval, versions_of,
}
use cron_qms.Core.Audit.{Session}
use cron_qms.Core.Permissions.{
  document_update, document_review, document_approve, document_obsolete,
}
use cron_qms.Db.{Db, Env, session_of}
use cron_qms.Services.DocumentWorkflow
use cron_qms.Routes.Scoped.{get_in_org, save, insert}
use cron_qms.Routes.Tables.{document_table, version_table}
use cron_qms.Routes.Access.{require}
use cron_qms.Routes.Documents.{get_document_in_org}

-- An uploaded file: its name and type, the length of its data, the SHA-256 of its data in
-- hexadecimal, and the key under which the storage keeps it.
pub record UploadFile : Type 0 where
  pub filename : Option String
  pub content_type : Option String
  pub size : ℕ
  pub sha256 : String
  pub key : String

-- `_get_version_in_org`
abbrev pub get_version_in_org : Env → Db → ℕ → Result DocumentVersion
get_version_in_org = get_in_org version_table (http 404 "Document version not found")

-- `_store_upload`
unfoldable pub store_upload : ℕ → UploadFile → Result String
store_upload attachment_max_bytes file = do
  raise_if (file.size == 0) (http 400 "Empty file")
  raise_if (ltb attachment_max_bytes file.size) (http 413 "File exceeds maximum allowed size")
  ok file.key

abbrev pub highest : List DocumentVersion → ℕ
highest [] = 0
highest (v ∷ vs) =
    let rest = highest vs in if ltb rest v.version_number then v.version_number else rest

-- `_next_version_number`
unfoldable pub next_version_number : List DocumentVersion → ℕ
next_version_number versions = suc (highest versions)

-- The statuses that the guard of `create_version` names
abbrev pub in_progress : DocumentVersion → Bool
in_progress v = elim v.status [
  | draft ↦ true
  | in_review ↦ true
  | pending_approval ↦ true
  | _ ↦ false
]

abbrev upload_name : Option String → String
upload_name none = "upload"
upload_name (some name) = if is_empty name then "upload" else name

unfoldable pub new_version :
    Env → Document → List DocumentVersion → UploadFile → Option String → String → DocumentVersion
unfolding next_version_number
new_version env d versions file change_summary storage_key = record {
  id = env.new_id;
  organization_id = d.organization_id;
  document_id = d.id;
  version_number = next_version_number versions;
  status = draft;
  change_summary = change_summary;
  filename = upload_name file.filename;
  content_type = file.content_type;
  size_bytes = file.size;
  checksum = file.sha256;
  storage_key = storage_key;
  author_id = env.user.id;
  reviewed_by = none;
  reviewed_at = none;
  approved_by = none;
  approved_at = none;
  effective_date = none;
}

-- The part of `create_version` after the document is loaded
unfoldable pub revise :
    Env → ℕ → Document → List DocumentVersion → UploadFile → Option String → Result DocumentVersion
revise env attachment_max_bytes d versions file change_summary = do
  raise_if (any in_progress versions)
      (http 409 "A revision is already in progress for this document")
  storage_key ← store_upload attachment_max_bytes file
  ok (new_version env d versions file change_summary storage_key)

unfoldable pub create_version :
    Env → ℕ → Db → ℕ → UploadFile → Option String → Result (Db × DocumentVersion)
create_version env attachment_max_bytes db document_id file change_summary = do
  require document_update env db
  d ← get_document_in_org env db document_id
  v ← revise env attachment_max_bytes d (versions_of d.id db.versions) file change_summary
  ok (insert version_table env (session_of env) db v, v)

-- The commit of the versions of a document, in the order of their keys. A version that did not
-- change is written as it was, and leaves no trail.
unfoldable pub save_all : Env → Session → Db → List DocumentVersion → List DocumentVersion → Db
save_all env s db (old ∷ olds) (new ∷ news) =
    save_all env s (save version_table env s db old new) olds news
save_all env s db _ _ = db

unfoldable pub submit_version : Env → Db → ℕ → Result (Db × DocumentVersion)
submit_version env db version_id = do
  require document_update env db
  v ← get_version_in_org env db version_id
  v' ← DocumentWorkflow.submit_for_review v
  ok (save version_table env (session_of env) db v v', v')

unfoldable pub review_version : Env → Db → ℕ → Result (Db × DocumentVersion)
review_version env db version_id = do
  require document_review env db
  v ← get_version_in_org env db version_id
  v' ← DocumentWorkflow.sign_off_review v env.user env.now
  ok (save version_table env (session_of env) db v v', v')

-- The new rows of a document's versions once one of them is written.
abbrev pub with_version : DocumentVersion → List DocumentVersion → List DocumentVersion
with_version v versions = overwrite (λ w. w.id == v.id) v versions

unfoldable pub approve_version : Env → Db → ℕ → Result (Db × DocumentVersion)
unfolding save_all
approve_version env db version_id = do
  require document_approve env db
  v ← get_version_in_org env db version_id
  d ← get_document_in_org env db v.document_id
  let versions = versions_of d.id db.versions
  r ← DocumentWorkflow.approve d versions v env.user env.today env.now
  let s = session_of env
  ok (save_all env s (save document_table env s db d r.0) versions (with_version r.2 r.1), r.2)

unfoldable pub reject_version : Env → Db → ℕ → String → Result (Db × DocumentVersion)
reject_version env db version_id reason = do
  require document_review env db
  v ← get_version_in_org env db version_id
  r ← DocumentWorkflow.reject (session_of env) v env.user reason
  ok (save version_table env r.0 db v r.1, r.1)

unfoldable pub obsolete_version : Env → Db → ℕ → String → Result (Db × DocumentVersion)
obsolete_version env db version_id reason = do
  require document_obsolete env db
  v ← get_version_in_org env db version_id
  d ← get_document_in_org env db v.document_id
  r ← DocumentWorkflow.obsolete_version (session_of env) d v reason env.today
  ok (save version_table env r.0 (save document_table env r.0 db d r.1) v r.2, r.2)

-- The requests that write a version.
pub data Request : Type 0 where
  create : ℕ → UploadFile → Option String → Request
  submit review approve : ℕ → Request
  reject obsolete : ℕ → String → Request

unfoldable pub handle : Env → ℕ → Db → Request → Result (Db × DocumentVersion)
unfolding create_version submit_version review_version approve_version reject_version
    obsolete_version
handle env max db (create document_id file summary) =
    create_version env max db document_id file summary
handle env max db (submit id) = submit_version env db id
handle env max db (review id) = review_version env db id
handle env max db (approve id) = approve_version env db id
handle env max db (reject id reason) = reject_version env db id reason
handle env max db (obsolete id reason) = obsolete_version env db id reason
