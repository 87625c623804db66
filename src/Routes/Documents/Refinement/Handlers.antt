-- ===== src/Routes/Documents/Refinement/Handlers.antt =====
-- Every handler of a version in app/api/routes/documents.py is a step of a document's history.
use cron_qms.Prelude.{
  ℕ, String, ◌≡◌, refl, sym, ap, subst, ◌∙◌, arith, Result, ok, >>=-eq-ok, ok-pair,
}
use cron_qms.Models.Document.{DocumentVersion}
use cron_qms.Core.Audit.{Session}
use cron_qms.Core.Permissions.{document_update, document_review}
use cron_qms.Db.{Db, Env, session_of}
use cron_qms.Services.DocumentWorkflow
use cron_qms.Services.DocumentWorkflow.{submit_for_review, sign_off_review}
use cron_qms.Routes.Access.{require}
use cron_qms.Routes.Scoped.{save}
use cron_qms.Routes.Tables.{version_table}
use cron_qms.Routes.Documents.Versions.{get_version_in_org, with_version}
use cron_qms.Routes.Documents.Lifecycle
use cron_qms.Routes.Documents.Lifecycle.{Controlled, Action, find, perform, is_version}
use cron_qms.Services.DocumentWorkflow.Rules.{
  submit_for_review_iff, sign_off_review_iff, reject_iff,
}
use cron_qms.Routes.Documents.Versions.{submit_version, review_version, reject_version}
use cron_qms.Routes.Documents.Refinement.{Holds, find-held, saved-Holds}

-- The history takes a step to a document that the new database shows.
abbrev pub Steps : Db → Controlled → Action → Type 0
Steps db' s a = (s' : Controlled) × (perform s a ≡ ok s') × Holds db' s'

submitted_same :
    (v : DocumentVersion) {v' : DocumentVersion}
    → submit_for_review v ≡ ok v'
    → (v'.document_id ≡ v.document_id) × (v'.id ≡ v.id)
submitted_same v {v'} h = ground (arith, submit_for_review_iff v v')

signed_same :
    (v : DocumentVersion) (env : Env) {v' : DocumentVersion}
    → sign_off_review v env.user env.now ≡ ok v'
    → (v'.document_id ≡ v.document_id) × (v'.id ≡ v.id)
signed_same v env {v'} h = ground (arith, sign_off_review_iff v env.user env.now v')

rejected_same :
    (db : Session) (v : DocumentVersion) (env : Env) (reason : String)
    {r : Session × DocumentVersion}
    → DocumentWorkflow.reject db v env.user reason ≡ ok r
    → (r.1.document_id ≡ v.document_id) × (r.1.id ≡ v.id)
rejected_same db v env reason {r} h = ground (arith, reject_iff v db env.user reason r.0 r.1)

module _ (env : Env) (db : Db) (s : Controlled) (holds : Holds db s) {db' : Db}
    {v' : DocumentVersion} (own : v'.document_id ≡ s.document.id) where
  -- The end of a handler that commits one version.
  saved-Steps :
      (session : Session) (id : ℕ) (v v2 : DocumentVersion) (a : Action)
      → get_version_in_org env db id ≡ ok v
      → (v2.document_id ≡ v.document_id) × (v2.id ≡ v.id)
      → (find s id ≡ ok v → perform s a ≡ ok (record s { versions = with_version v2 s.versions }))
      → ◌≡◌ {A = Result (Db × DocumentVersion)}
          (ok (save version_table env session db v v2, v2))
          (ok (db', v'))
      → Steps db' s a
  saved-Steps session id v v2 a found same performs h =
      let (writes, is) = ok-pair (save version_table env session db v v2) db' v2 v' h in
      let own2 : v2.document_id ≡ s.document.id =
        ap (λ (x : DocumentVersion). x.document_id) is ∙ own in
      let own1 : v.document_id ≡ s.document.id = sym same.0 ∙ own2 in
      let (held, row) = find-held env db s holds id found own1 in
      let s' : Controlled = record s { versions = with_version v2 s.versions } in
      (
        s',
        performs held,
        subst (λ x. Holds x s') writes
            (saved-Holds env db s holds session v v2 row own1 own2 same.1),
      )

  pub submit-Steps :
      (id : ℕ) → submit_version env db id ≡ ok (db', v') → Steps db' s (Lifecycle.submit id)
  unfolding submit_version perform
  submit-Steps id h =
      let (_, _, h1) = >>=-eq-ok (require document_update env db) _ h in
      let (v, found, h2) = >>=-eq-ok (get_version_in_org env db id) _ h1 in
      let (v2, done, h3) = >>=-eq-ok (submit_for_review v) _ h2 in
      saved-Steps (session_of env) id v v2 (Lifecycle.submit id) found (submitted_same v done)
        (λ held. rw (held, done) refl) h3

  pub review-Steps :
      (id : ℕ) → review_version env db id ≡ ok (db', v') → Steps db' s (Lifecycle.review env id)
  unfolding review_version perform
  review-Steps id h =
      let (_, _, h1) = >>=-eq-ok (require document_review env db) _ h in
      let (v, found, h2) = >>=-eq-ok (get_version_in_org env db id) _ h1 in
      let (v2, done, h3) = >>=-eq-ok (sign_off_review v env.user env.now) _ h2 in
      saved-Steps (session_of env) id v v2 (Lifecycle.review env id) found (signed_same v env done)
        (λ held. rw (held, done) refl) h3

  pub reject-Steps :
      (id : ℕ) (reason : String)
      → reject_version env db id reason ≡ ok (db', v')
      → Steps db' s (Lifecycle.reject env (session_of env) id reason)
  unfolding reject_version perform
  reject-Steps id reason h =
      let (_, _, h1) = >>=-eq-ok (require document_review env db) _ h in
      let (v, found, h2) = >>=-eq-ok (get_version_in_org env db id) _ h1 in
      let (r, done, h3) =
        >>=-eq-ok (DocumentWorkflow.reject (session_of env) v env.user reason) _ h2 in
      saved-Steps r.0 id v r.1 (Lifecycle.reject env (session_of env) id reason) found
        (rejected_same (session_of env) v env reason done) (λ held. rw (held, done) refl) h3
