-- ===== src/Services/DocumentWorkflow/Rules.antt =====
-- What each rule of app/services/document_workflow.py allows and does.
use cron_qms.Prelude.{
  ℕ, String, ◌≡◌, ◌≢◌, ◌⊎◌, ◌↔◌, none, some, List, map, arith, Result, ok, Option,
}
use cron_qms.Dates.{Date}
use cron_qms.Models.User.{User}
use cron_qms.Models.Document.{
  Document, DocumentVersion, draft, in_review, pending_approval, effective, obsolete,
}
use cron_qms.Core.Audit.{Session}
use cron_qms.Services.DocumentWorkflow.{
  allowed, submit_for_review, sign_off_review, scheduled, superseded, approve, reject,
  obsolete_version,
}

module _ (v : DocumentVersion) where
  -- A submission is accepted exactly for a draft, and changes the status alone.
  pub submit_for_review_iff :
      (v' : DocumentVersion)
      → (submit_for_review v ≡ ok v')
        ↔ ((v.status ≡ draft) × (v' ≡ record v { status = in_review }))
  unfolding submit_for_review allowed
  submit_for_review_iff v' = (λ h. ground arith, λ h. ground arith)

  -- A review is accepted exactly for a version in review, by a user who is not its author; it
  -- records the reviewer and the time.
  pub sign_off_review_iff :
      (actor : User) (now : ℕ) (v' : DocumentVersion)
      → (sign_off_review v actor now ≡ ok v') ↔ (
          (v.status ≡ in_review)
          × (actor.id ≢ v.author_id)
          × (v' ≡ record v {
            status = pending_approval;
            reviewed_by = some actor.id;
            reviewed_at = some now;
          }))
  unfolding sign_off_review
  sign_off_review_iff actor now v' = (λ h. ground arith, λ h. ground arith)

  -- A rejection is accepted exactly for a version in review or pending approval, by a user who is
  -- not its author; it hands the reason to the audit trail, and takes the signatures back.
  pub reject_iff :
      (db : Session) (actor : User) (reason : String) (db' : Session) (v' : DocumentVersion)
      → ◌≡◌ {A = Result (Session × DocumentVersion)} (reject db v actor reason) (ok (db', v')) ↔ (
          ((v.status ≡ in_review) ⊎ (v.status ≡ pending_approval))
          × (actor.id ≢ v.author_id)
          × (db' ≡ record db { reason = some reason })
          × (v' ≡ record v {
            status = draft;
            reviewed_by = none;
            reviewed_at = none;
            approved_by = none;
            approved_at = none;
          }))
  unfolding reject
  reject_iff db actor reason db' v' = (λ h. ground arith, λ h. ground arith)

  -- An approval is accepted exactly for a version pending approval, by a user who is neither its
  -- author nor its reviewer, where the date of the next review exists. It supersedes the other
  -- versions of the document, puts the version into effect from today, records the approver, plans
  -- the next review and stops the retention clock.
  pub approve_iff :
      (d : Document) (versions : List DocumentVersion) (actor : User) (today : Date) (now : ℕ)
      (d' : Document) (versions' : List DocumentVersion) (v' : DocumentVersion)
      → ◌≡◌ {A = Result (Document × List DocumentVersion × DocumentVersion)}
          (approve d versions v actor today now)
          (ok (d', versions', v'))
        ↔ ((v.status ≡ pending_approval)
            × (actor.id ≢ v.author_id)
            × (v.reviewed_by ≢ some actor.id)
            × ((next : Option Date) × (scheduled d.review_period_months today ≡ ok next)
                × (d' ≡ record d { next_review_date = next; retention_until = none }))
            × (versions' ≡ map (superseded v.id) versions)
            × (v' ≡ record v {
              status = effective;
              approved_by = some actor.id;
              approved_at = some now;
              effective_date = some today;
            }))
  unfolding approve
  approve_iff d versions actor today now d' versions' v' = (λ h. ground arith, λ h. ground arith)

  -- A version is made obsolete exactly if it is in effect, and the end of the retention period,
  -- where the document has one, is a date that exists. That hands the reason to the audit trail,
  -- ends the periodic reviews and sets the retention clock, or clears it without a period.
  pub obsolete_version_iff :
      (db : Session) (d : Document) (reason : String) (today : Date) (db' : Session) (d' : Document)
      (v' : DocumentVersion)
      → ◌≡◌ {A = Result (Session × Document × DocumentVersion)}
          (obsolete_version db d v reason today)
          (ok (db', d', v'))
        ↔ ((v.status ≡ effective)
            × (db' ≡ record db { reason = some reason })
            × ((until : Option Date) × (scheduled d.retention_period_months today ≡ ok until)
                × (d' ≡ record d { next_review_date = none; retention_until = until }))
            × (v' ≡ record v { status = obsolete }))
  unfolding obsolete_version
  obsolete_version_iff db d reason today db' d' v' = (λ h. ground arith, λ h. ground arith)
