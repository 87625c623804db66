-- ===== src/Services/DocumentWorkflow.antt =====
-- app/services/document_workflow.py. A function that mutates a version, its document or the other
-- versions of the document returns the new rows; a WorkflowError is an `http` error with the same
-- status code and message. `add_months` is in Dates.
pub mod Rules
pub mod Approval
use Prim.Native.String.{◌++◌}
use cron_qms.Prelude.{
  ℕ, zero, suc, String, Bool, true, false, not, ◌&&◌, ◌||◌, Option, none, some, List, map, ◌==◌,
  is_some_of, if◌then◌else◌, Result, ok, err, http, raise_if, ◌>>=◌, ◌>>◌,
}
use cron_qms.Dates.{Date, add_months}
use cron_qms.Models.User.{User}
use cron_qms.Models.Document.{
  Document, DocumentVersion, DocumentVersionStatus, draft, in_review, pending_approval, effective,
  obsolete, rejected, status_value, is_effective,
}
use cron_qms.Core.Audit.{Session, set_audit_reason}

-- `new_status in ALLOWED_TRANSITIONS[current]`
unfoldable pub allowed : DocumentVersionStatus → DocumentVersionStatus → Bool
allowed draft in_review = true
allowed _ _ = false

abbrev is_in_review : DocumentVersionStatus → Bool
is_in_review in_review = true
is_in_review _ = false

abbrev is_pending_approval : DocumentVersionStatus → Bool
is_pending_approval pending_approval = true
is_pending_approval _ = false

not_submittable : DocumentVersionStatus → String
not_submittable current =
    "Only a Draft version can be submitted for review (current: " ++ status_value current ++ ")"

unfoldable pub submit_for_review : DocumentVersion → Result DocumentVersion
unfolding not_submittable allowed
submit_for_review version = do
  raise_if (not (allowed version.status in_review)) (http 400 (not_submittable version.status))
  ok (record version { status = in_review })

unfoldable pub sign_off_review : DocumentVersion → User → ℕ → Result DocumentVersion
sign_off_review version actor now = do
  raise_if (not (is_in_review version.status)) (http 400 "Only a version In Review can be reviewed")
  raise_if (actor.id == version.author_id)
      (http 403 "The reviewer must be someone other than the document's author")
  ok (record version {
    status = pending_approval;
    reviewed_by = some actor.id;
    reviewed_at = some now;
  })

-- The body of the loop over `document.versions` in `approve`
unfoldable pub superseded : ℕ → DocumentVersion → DocumentVersion
superseded version_id other =
    if not (other.id == version_id) && is_effective other.status
    then record other { status = obsolete }
    else other

-- A date that many months from today, and None where the document has no period or the period 0.
unfoldable pub scheduled : Option ℕ → Date → Result (Option Date)
scheduled none today = ok none
scheduled (some zero) today = ok none
scheduled (some (suc n)) today = do day ← add_months today (suc n); ok (some day)

-- The new document, the rows of its versions with the prior one superseded, and the new version.
unfoldable pub approve :
    Document
    → List DocumentVersion
    → DocumentVersion
    → User
    → Date
    → ℕ
    → Result (Document × List DocumentVersion × DocumentVersion)
approve document versions version actor today now = do
  raise_if (not (is_pending_approval version.status))
      (http 400 "Only a version Pending Approval can be approved")
  raise_if ((actor.id == version.author_id) || is_some_of actor.id version.reviewed_by)
      (http 403 "The approver must be someone other than the author and the reviewer")
  next_review ← scheduled document.review_period_months today
  ok (
    record document { next_review_date = next_review; retention_until = none },
    map (superseded version.id) versions,
    record version {
      status = effective;
      approved_by = some actor.id;
      approved_at = some now;
      effective_date = some today;
    },
  )

unfoldable pub reject :
    Session → DocumentVersion → User → String → Result (Session × DocumentVersion)
unfolding set_audit_reason
reject db version actor reason = do
  raise_if (not (is_in_review version.status || is_pending_approval version.status))
      (http 400 "Only a version In Review or Pending Approval can be rejected")
  raise_if (actor.id == version.author_id)
      (http 403 "A version must be rejected by someone other than its author")
  ok (
    set_audit_reason db (some reason),
    record version {
      status = draft;
      reviewed_by = none;
      reviewed_at = none;
      approved_by = none;
      approved_at = none;
    },
  )

unfoldable pub obsolete_version :
    Session
    → Document
    → DocumentVersion
    → String
    → Date
    → Result (Session × Document × DocumentVersion)
unfolding set_audit_reason
obsolete_version db document version reason today = do
  raise_if (not (is_effective version.status))
      (http 400 "Only the Effective version can be obsoleted")
  until ← scheduled document.retention_period_months today
  ok (
    set_audit_reason db (some reason),
    record document { next_review_date = none; retention_until = until },
    record version { status = obsolete },
  )
