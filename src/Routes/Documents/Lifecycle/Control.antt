-- ===== src/Routes/Documents/Lifecycle/Control.antt =====
-- No history of a document leaves its control.
use cron_qms.Prelude.{
  ℕ, String, ◌≡◌, refl, false, Option, List, [], ◌∷◌, ◌++◌, arith, any, first-All, Result, ok, run,
  run_induction, kept_cases, ok-injective, >>=-eq-ok, subst, sym,
}
use cron_qms.Models.Document.{Document, DocumentVersion}
use cron_qms.Core.Audit.{Session}
use cron_qms.Db.{Env}
use cron_qms.Services.DocumentWorkflow
use cron_qms.Services.DocumentWorkflow.{superseded, submit_for_review, sign_off_review}
use cron_qms.Services.DocumentWorkflow.Rules.{
  submit_for_review_iff, sign_off_review_iff, approve_iff, reject_iff, obsolete_version_iff,
}
use cron_qms.Routes.Documents.Versions.{
  UploadFile, in_progress, revise, store_upload, new_version, with_version,
}
use cron_qms.Routes.Documents.Lifecycle.{
  Controlled, Action, upload, submit, review, approve, reject, retire, is_version, find, perform,
  step, IsSegregated, IsControlled,
}
use cron_qms.Routes.Documents.Lifecycle.Writes.{find-first, appended, written, approved_one}

module _ (s : Controlled) (h : IsControlled s) where
  find-IsSegregated : (id : ℕ) {v : DocumentVersion} → find s id ≡ ok v → IsSegregated v
  find-IsSegregated id {v} found =
      first-All IsSegregated (is_version v.id) s.versions h.segregated (find-first s id found)

  submitted :
      (id : ℕ) {v v' : DocumentVersion}
      → find s id ≡ ok v
      → submit_for_review v ≡ ok v'
      → IsControlled (record s { versions = with_version v' s.versions })
  submitted id {v} {v'} found p =
      let (was, is) = (submit_for_review_iff v v').0 p in
      let seg = find-IsSegregated id found in
      written s h id v v' s.document found (ground arith) (ground arith) (ground arith)
        (ground arith)

  signed_off :
      (env : Env) (id : ℕ) {v v' : DocumentVersion}
      → find s id ≡ ok v
      → sign_off_review v env.user env.now ≡ ok v'
      → IsControlled (record s { versions = with_version v' s.versions })
  signed_off env id {v} {v'} found p =
      let (was, other, is) = (sign_off_review_iff v env.user env.now v').0 p in
      let seg = find-IsSegregated id found in
      written s h id v v' s.document found (ground arith) (ground arith) (ground arith)
        (ground arith)

  rejected :
      (env : Env) (db : Session) (id : ℕ) (reason : String) {v v' : DocumentVersion} {db' : Session}
      → find s id ≡ ok v
      → ◌≡◌ {A = Result (Session × DocumentVersion)}
          (DocumentWorkflow.reject db v env.user reason)
          (ok (db', v'))
      → IsControlled (record s { versions = with_version v' s.versions })
  rejected env db id reason {v} {v'} {db'} found p =
      let (was, other, _, is) = (reject_iff v db env.user reason db' v').0 p in
      let seg = find-IsSegregated id found in
      written s h id v v' s.document found (ground arith) (ground arith) (ground arith)
        (ground arith)

  retired :
      (env : Env) (db : Session) (id : ℕ) (reason : String) {v v' : DocumentVersion} {d' : Document}
      {db' : Session}
      → find s id ≡ ok v
      → ◌≡◌ {A = Result (Session × Document × DocumentVersion)}
          (DocumentWorkflow.obsolete_version db s.document v reason env.today)
          (ok (db', d', v'))
      → IsControlled (record { document = d'; versions = with_version v' s.versions })
  retired env db id reason {v} {v'} {d'} {db'} found p =
      let (was, _, _, is) = (obsolete_version_iff v db s.document reason env.today db' d' v').0 p in
      let seg = find-IsSegregated id found in
      written s h id v v' d' found (ground arith) (ground arith) (ground arith) (ground arith)

  approved :
      (env : Env) (id : ℕ) {v v' : DocumentVersion} {rows : List DocumentVersion} {d' : Document}
      → find s id ≡ ok v
      → ◌≡◌ {A = Result (Document × List DocumentVersion × DocumentVersion)}
          (DocumentWorkflow.approve s.document s.versions v env.user env.today env.now)
          (ok (d', rows, v'))
      → IsControlled (record { document = d'; versions = with_version v' rows })
  approved env id {v} {v'} {rows} {d'} found p =
      let (was, author, reviewer, _, marked, is) =
        (approve_iff v s.document s.versions env.user env.today env.now d' rows v').0 p in
      let seg = find-IsSegregated id found in
      subst (λ x. IsControlled (record { document = d'; versions = with_version v' x }))
        (sym marked)
        (approved_one s h id v v' d' found (ground arith) (ground arith) (ground arith)
          (ground arith))

  uploaded :
      (env : Env) (max : ℕ) (file : UploadFile) (summary : Option String) {s' : Controlled}
      → perform s (upload env max file summary) ≡ ok s'
      → IsControlled s'
  unfolding perform revise store_upload new_version
  uploaded env max file summary {s'} p =
      let v = new_version env s.document s.versions file summary file.key in
      let is_new : any (is_version v.id) s.versions ≡ false = ground arith in
      let idle : any in_progress s.versions ≡ false = ground arith in
      let is : s' ≡ record s { versions = s.versions ++ v ∷ [] } = ground arith in
      subst IsControlled (sym is) (appended s h v is_new idle refl refl refl)

  pub perform-IsControlled : (a : Action) {s' : Controlled} → perform s a ≡ ok s' → IsControlled s'
  unfolding perform
  perform-IsControlled (upload env max file summary) p = uploaded env max file summary p
  perform-IsControlled (submit id) p =
      let (v, found, p1) = >>=-eq-ok (find s id) _ p in
      let (v', done, p2) = >>=-eq-ok (submit_for_review v) _ p1 in
      subst IsControlled (ok-injective p2) (submitted id found done)
  perform-IsControlled (review env id) p =
      let (v, found, p1) = >>=-eq-ok (find s id) _ p in
      let (v', done, p2) = >>=-eq-ok (sign_off_review v env.user env.now) _ p1 in
      subst IsControlled (ok-injective p2) (signed_off env id found done)
  perform-IsControlled (approve env id) p =
      let (v, found, p1) = >>=-eq-ok (find s id) _ p in
      let (r, done, p2) =
        >>=-eq-ok (DocumentWorkflow.approve s.document s.versions v env.user env.today env.now) _
          p1 in
      subst IsControlled (ok-injective p2) (approved env id found done)
  perform-IsControlled (reject env db id reason) p =
      let (v, found, p1) = >>=-eq-ok (find s id) _ p in
      let (r, done, p2) = >>=-eq-ok (DocumentWorkflow.reject db v env.user reason) _ p1 in
      subst IsControlled (ok-injective p2) (rejected env db id reason found done)
  perform-IsControlled (retire env db id reason) p =
      let (v, found, p1) = >>=-eq-ok (find s id) _ p in
      let (r, done, p2) =
        >>=-eq-ok (DocumentWorkflow.obsolete_version db s.document v reason env.today) _ p1 in
      subst IsControlled (ok-injective p2) (retired env db id reason found done)

step-IsControlled : (s : Controlled) (a : Action) → IsControlled s → IsControlled (step s a)
unfolding step
step-IsControlled s a h =
    kept_cases IsControlled s (perform s a) h (λ s' p. perform-IsControlled s h a p)

-- Whatever is done to a document and its versions by these rules, it stays so that at most one
-- version is in effect, at most one is in progress, no two have the same key, and reviewer, approver
-- and author of each version are three people, whose signatures each stage has.
pub run-IsControlled :
    (s : Controlled) (actions : List Action) → IsControlled s → IsControlled (run step s actions)
run-IsControlled = run_induction step IsControlled step-IsControlled
