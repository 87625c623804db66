-- ===== src/Routes/Documents.antt =====
-- app/api/routes/documents.py
pub mod Versions
pub mod Lifecycle
pub mod Scope
pub mod Refinement
use cron_qms.Prelude.{
  ℕ, suc, String, Bool, true, false, ◌||◌, Option, none, some, List, [], ◌∷◌, any, overwrite, ltb,
  ◌==◌, or_else, if◌then◌else◌, Result, ok, http, raise_if, ◌>>=◌, ◌>>◌,
}
use cron_qms.Text.{is_empty}
use cron_qms.Models.Document.{
  Document, DocumentCategory, DocumentVersion, DocumentVersionStatus, draft, in_review,
  pending_approval, versions_of,
}
use cron_qms.Core.Audit.{Session}
use cron_qms.Core.Permissions.{
  document_create, document_read, document_update, document_review, document_approve,
  document_obsolete, document_delete,
}
use cron_qms.Db.{Db, Env, session_of}
use cron_qms.Services.DocumentWorkflow
use cron_qms.Routes.Scoped.{get_in_org, save, insert}
use cron_qms.Routes.Tables.{document_table, version_table}
use cron_qms.Routes.Access.{
  require, require_organization, Field, unset, sent, assign, assign_required,
}

pub record DocumentCreate : Type 0 where
  pub document_number : String
  pub title : String
  pub category : DocumentCategory
  pub description : Option String
  pub owner_id : Option ℕ
  pub owner_group_id : Option ℕ
  pub review_period_months : Option ℕ
  pub retention_period_months : Option ℕ

pub record DocumentUpdate : Type 0 where
  pub document_number : Field String
  pub title : Field String
  pub category : Field DocumentCategory
  pub description : Field String
  pub owner_id : Field ℕ
  pub owner_group_id : Field ℕ
  pub review_period_months : Field ℕ
  pub retention_period_months : Field ℕ

-- `_get_document_in_org`
abbrev pub get_document_in_org : Env → Db → ℕ → Result Document
get_document_in_org = get_in_org document_table (http 404 "Document not found")

new_document : Env → DocumentCreate → ℕ → Document
new_document env p organization_id = record {
  id = env.new_id;
  organization_id = organization_id;
  document_number = p.document_number;
  title = p.title;
  category = p.category;
  description = p.description;
  owner_id = p.owner_id;
  owner_group_id = p.owner_group_id;
  review_period_months = p.review_period_months;
  next_review_date = none;
  retention_period_months = p.retention_period_months;
  retention_until = none;
  created_by = env.user.id;
  is_active = true;
}

unfoldable pub create_document : Env → Db → DocumentCreate → Result (Db × Document)
unfolding new_document
create_document env db p = do
  require document_create env db
  organization_id ← require_organization env
  let d = new_document env p organization_id
  ok (insert document_table env (session_of env) db d, d)

unfoldable pub get_document : Env → Db → ℕ → Result Document
get_document env db document_id = do
  require document_read env db
  get_document_in_org env db document_id

-- A category of null is neither taken nor one of `_SCALAR_FIELDS`, and changes nothing.
unfoldable pub updated : DocumentUpdate → Document → Result Document
updated p d = do
  document_number ← assign_required p.document_number d.document_number
  title ← assign_required p.title d.title
  ok (record d {
    document_number = document_number;
    title = title;
    category = or_else (assign p.category (some d.category)) d.category;
    description = assign p.description d.description;
    owner_id = assign p.owner_id d.owner_id;
    owner_group_id = assign p.owner_group_id d.owner_group_id;
    review_period_months = assign p.review_period_months d.review_period_months;
    retention_period_months = assign p.retention_period_months d.retention_period_months;
  })

unfoldable pub update_document : Env → Db → ℕ → DocumentUpdate → Result (Db × Document)
update_document env db document_id p = do
  require document_update env db
  d ← get_document_in_org env db document_id
  d' ← updated p d
  ok (save document_table env (session_of env) db d d', d')

unfoldable pub delete_document : Env → Db → ℕ → Result (Db × Document)
delete_document env db document_id = do
  require document_delete env db
  d ← get_document_in_org env db document_id
  let d' = record d { is_active = false }
  ok (save document_table env (session_of env) db d d', d')

-- The requests that write one document and no version.
pub data Request : Type 0 where
  create : DocumentCreate → Request
  update : ℕ → DocumentUpdate → Request
  delete : ℕ → Request

unfoldable pub handle : Env → Db → Request → Result (Db × Document)
unfolding create_document update_document delete_document
handle env db (create p) = create_document env db p
handle env db (update id p) = update_document env db id p
handle env db (delete id) = delete_document env db id
