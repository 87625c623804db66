-- ===== src/Routes/Documents/Lifecycle.antt =====
-- Histories of one document and its versions under the rules of app/services/document_workflow.py
-- and the guard of `create_version` in app/api/routes/documents.py.
pub mod Writes
pub mod Control
pub mod Current
use cron_qms.Prelude.{
  ℕ, suc, String, ◌≡◌, ◌≢◌, ◌≤◌, ◌⊎◌, refl, inl, inr, Bool, true, false, not, ◌&&◌, Option, none,
  some, List, [], ◌∷◌, ◌++◌, map, arith, All, All-append, All-mapped, any, count, first,
  first-holds, overwrite, overwrite-All, first-All, ◌==◌, Result, kept, ok, err, http, crash,
  raise_if, or_raise, ◌>>=◌, ◌>>◌, run, run_induction, Bool-cases, subst, sym, ◌∙◌, count-append,
  none-count, count-map, count-map-le, count-overwrite, count-rewrite, count-overwrite-drop,
  count-overwrite-suc, only-count, if◌then◌else◌,
}
use cron_qms.Dates.{Date}
use cron_qms.Models.User.{User}
use cron_qms.Models.Document.{
  Document, DocumentVersion, draft, in_review, pending_approval, effective, obsolete, is_effective,
}
use cron_qms.Core.Audit.{Session}
use cron_qms.Db.{Env}
use cron_qms.Services.DocumentWorkflow
use cron_qms.Services.DocumentWorkflow.{superseded, submit_for_review, sign_off_review}
use cron_qms.Services.DocumentWorkflow.Rules.{
  submit_for_review_iff, sign_off_review_iff, approve_iff, reject_iff, obsolete_version_iff,
}
use cron_qms.Routes.Documents.Versions.{UploadFile, in_progress, revise, new_version, with_version}

-- A document and `document.versions`.
pub record Controlled : Type 0 where
  pub document : Document
  pub versions : List DocumentVersion

-- The operations, each with its caller and its clock, and with the key of the version. The database
-- refuses a key that a version has already.
pub data Action : Type 0 where
  upload : Env → ℕ → UploadFile → Option String → Action
  submit : ℕ → Action
  review : Env → ℕ → Action
  approve : Env → ℕ → Action
  reject : Env → Session → ℕ → String → Action
  retire : Env → Session → ℕ → String → Action

abbrev pub is_version : ℕ → DocumentVersion → Bool
is_version id v = v.id == id

unfoldable pub find : Controlled → ℕ → Result DocumentVersion
find s id = or_raise (first (is_version id) s.versions) (http 404 "Document version not found")

unfoldable pub perform : Controlled → Action → Result Controlled
unfolding find
perform s (upload env max file summary) = do
  raise_if (any (is_version env.new_id) s.versions) crash
  v ← revise env max s.document s.versions file summary
  ok (record s { versions = s.versions ++ v ∷ [] })
perform s (submit id) = do
  v ← find s id
  v' ← DocumentWorkflow.submit_for_review v
  ok (record s { versions = with_version v' s.versions })
perform s (review env id) = do
  v ← find s id
  v' ← DocumentWorkflow.sign_off_review v env.user env.now
  ok (record s { versions = with_version v' s.versions })
perform s (approve env id) = do
  v ← find s id
  r ← DocumentWorkflow.approve s.document s.versions v env.user env.today env.now
  ok (record { document = r.0; versions = with_version r.2 r.1 })
perform s (reject env session id reason) = do
  v ← find s id
  r ← DocumentWorkflow.reject session v env.user reason
  ok (record s { versions = with_version r.1 s.versions })
perform s (retire env session id reason) = do
  v ← find s id
  r ← DocumentWorkflow.obsolete_version session s.document v reason env.today
  ok (record { document = r.1; versions = with_version r.2 s.versions })

-- An operation that raises changes nothing.
unfoldable pub step : Controlled → Action → Controlled
step s a = kept s (perform s a)

abbrev pub in_effect : DocumentVersion → Bool
in_effect v = is_effective v.status

-- Reviewer, approver and author of a version are three people, and a version that reached a stage
-- has the signatures for it.
pub record IsSegregated (v : DocumentVersion) : Type 0 where
  pub reviewed : (v.status ≡ pending_approval) ⊎ (v.status ≡ effective) → v.reviewed_by ≢ none
  pub approved : v.status ≡ effective → v.approved_by ≢ none
  pub unsigned : in_progress v ≡ true → v.approved_by ≡ none
  pub reviewer : (u : ℕ) → v.reviewed_by ≡ some u → u ≢ v.author_id
  pub approver : (u : ℕ) → v.approved_by ≡ some u → (u ≢ v.author_id) × (v.reviewed_by ≢ some u)

pub record IsControlled (s : Controlled) : Type 0 where
  pub unique : (id : ℕ) → count (is_version id) s.versions ≤ 1
  pub one_effective : count in_effect s.versions ≤ 1
  pub one_in_progress : count in_progress s.versions ≤ 1
  pub segregated : All IsSegregated s.versions
