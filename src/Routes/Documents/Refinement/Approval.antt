-- ===== src/Routes/Documents/Refinement/Approval.antt =====
-- The handlers that write all the versions of a document, or a new one.
use cron_qms.Prelude.{
  ℕ, String, ◌≡◌, refl, sym, ap, subst, ◌∙◌, true, false, List, [], ◌∷◌, ◌++◌, any, arith, Result,
  ok, Option, >>=-eq-ok, ok-pair,
}
use cron_qms.Models.Document.{Document, DocumentVersion, versions_of}
use cron_qms.Core.Audit.Recorded.{DistinctIds}
use cron_qms.Core.Permissions.{document_approve}
use cron_qms.Db.{Db, Env, session_of}
use cron_qms.Services.DocumentWorkflow
use cron_qms.Services.DocumentWorkflow.{submit_for_review, sign_off_review}
use cron_qms.Routes.Access.{require}
use cron_qms.Routes.Scoped.{save, insert}
use cron_qms.Routes.Tables.{document_table, version_table}
use cron_qms.Routes.Documents.{get_document_in_org}
use cron_qms.Routes.Documents.Versions.{get_version_in_org, with_version}
use cron_qms.Routes.Documents.Lifecycle
use cron_qms.Routes.Documents.Lifecycle.{Controlled, Action, find, perform, is_version}
use cron_qms.Services.DocumentWorkflow.Rules.{approve_iff}
use cron_qms.Routes.Documents.Versions.{revise, approve_version, save_all}
use cron_qms.Routes.Documents.Refinement.{Holds, find-held}
use cron_qms.Routes.Documents.Refinement.Handlers.{Steps}
use cron_qms.Prelude.{filter-append, ◌==◌, map}
use cron_qms.Services.DocumentWorkflow.{superseded}
use cron_qms.Routes.Scoped.Writes.{rows-insert}
use cron_qms.Routes.Documents.Versions.{UploadFile}
use cron_qms.Routes.Documents.Refinement.Rows.{SameRows}
use cron_qms.Routes.Documents.Refinement.Documents.{held_document, saved_document-Holds}
use cron_qms.Routes.Documents.Refinement.Commits.{
  versions_of-OfDocument, superseded-SameRows, with_version-SameRows, saved_all-Holds,
}

approved_same :
    (env : Env) (d : Document) (versions : List DocumentVersion) (v : DocumentVersion)
    {r : Document × List DocumentVersion × DocumentVersion}
    → DocumentWorkflow.approve d versions v env.user env.today env.now ≡ ok r
    → (r.2.document_id ≡ v.document_id)
      × (r.0.id ≡ d.id)
      × (r.0.is_active ≡ d.is_active)
      × (r.1 ≡ map (superseded v.id) versions)
approved_same env d versions v {r} h =
    let (_, _, _, (_, _, is), marked, is') =
      (approve_iff v d versions env.user env.today env.now r.0 r.1 r.2).0 h in
    (ground arith, ground arith, ground arith, marked)

module _ (env : Env) (db : Db) (s : Controlled) (holds : Holds db s)
    (distinct : DistinctIds version_table.audited db.versions) {db' : Db} {v' : DocumentVersion}
    (own : v'.document_id ≡ s.document.id) where
  approved-Steps :
      (id : ℕ) (v : DocumentVersion) (r : Document × List DocumentVersion × DocumentVersion)
      → get_version_in_org env db id ≡ ok v
      → DocumentWorkflow.approve s.document
          (versions_of s.document.id db.versions)
          v
          env.user
          env.today
          env.now
        ≡ ok r
      → ◌≡◌ {A = Result (Db × DocumentVersion)}
          (ok (
            save_all env
                (session_of env)
                (save document_table env (session_of env) db s.document r.0)
                (versions_of s.document.id db.versions)
                (with_version r.2 r.1),
            r.2,
          ))
          (ok (db', v'))
      → v.document_id ≡ s.document.id
      → Steps db' s (Lifecycle.approve env id)
  unfolding perform save
  approved-Steps id v r found done h own1 =
      let session = session_of env in
      let olds = versions_of s.document.id db.versions in
      let (same_doc, same_key, active, marked) = approved_same env s.document olds v done in
      let here : DocumentWorkflow.approve s.document s.versions v env.user env.today env.now
          ≡ ok r =
        subst (λ rows. DocumentWorkflow.approve s.document rows v env.user env.today env.now ≡ ok r)
          holds.version_rows done in
      let db1 = save document_table env session db s.document r.0 in
      let news = with_version r.2 r.1 in
      let (writes, _) = ok-pair (save_all env session db1 olds news) db' r.2 v' h in
      let (held, row) = find-held env db s holds id found own1 in
      let s1 : Controlled = record s { document = r.0 } in
      let holds1 = saved_document-Holds env session db s r.0 holds same_key active in
      let s' : Controlled = record { document = r.0; versions = news } in
      let marked_rows : SameRows s.document.id olds r.1 =
        subst (SameRows s.document.id olds) (sym marked) (
          superseded-SameRows s.document.id v.id olds
            (versions_of-OfDocument s.document.id db.versions)) in
      let same : SameRows s.document.id olds news =
        with_version-SameRows s.document.id r.2 olds r.1 (same_doc ∙ own1) marked_rows in
      let same' : SameRows r.0.id (versions_of r.0.id db.versions) news =
        subst (λ k. SameRows k (versions_of k db.versions) news) (sym same_key) same in
      let saved = saved_all-Holds env session db1 s1 news holds1 distinct same' in
      (
        s',
        rw (held, here) refl,
        subst (λ x. Holds x s') writes
            (subst (λ k. Holds (save_all env session db1 (versions_of k db.versions) news) s')
              same_key saved),
      )

  pub approve-Steps :
      (id : ℕ) → approve_version env db id ≡ ok (db', v') → Steps db' s (Lifecycle.approve env id)
  unfolding approve_version
  approve-Steps id h =
      let (_, _, h1) = >>=-eq-ok (require document_approve env db) _ h in
      let (v, found, h2) = >>=-eq-ok (get_version_in_org env db id) _ h1 in
      let (d, found_d, h3) = >>=-eq-ok (get_document_in_org env db v.document_id) _ h2 in
      let (r, done, h4) =
        >>=-eq-ok
          (DocumentWorkflow.approve d (versions_of d.id db.versions) v env.user env.today env.now) _
          h3 in
      let is_v = (ok-pair _ db' r.2 v' h4).1 in
      let own1 : v.document_id ≡ s.document.id =
        sym ((approved_same env d (versions_of d.id db.versions) v done).0)
        ∙ ap (λ (x : DocumentVersion). x.document_id) is_v
        ∙ own in
      let is = held_document env db s v.document_id holds found_d own1 in
      approved-Steps id v r found
        (subst
          (λ x.
            DocumentWorkflow.approve x (versions_of x.id db.versions) v env.user env.today env.now
            ≡ ok r)
          is done)
        (subst
          (λ x.
            ◌≡◌ {A = Result (Db × DocumentVersion)}
              (ok (
                save_all env (session_of env) (save document_table env (session_of env) db x r.0)
                    (versions_of x.id db.versions) (with_version r.2 r.1),
                r.2,
              ))
              (ok (db', v')))
          is h4)
        own1

  pub create-Steps :
      (max : ℕ) (file : UploadFile) (summary : Option String) (v : DocumentVersion)
      → any (is_version env.new_id) s.versions ≡ false
      → revise env max s.document (versions_of s.document.id db.versions) file summary ≡ ok v
      → ◌≡◌ {A = Result (Db × DocumentVersion)}
          (ok (insert version_table env (session_of env) db v, v))
          (ok (db', v'))
      → Steps db' s (Lifecycle.upload env max file summary)
  unfolding perform
  create-Steps max file summary v fresh done h =
      let (writes, is_v) = ok-pair (insert version_table env (session_of env) db v) db' v v' h in
      let own2 : v.document_id ≡ s.document.id =
        ap (λ (x : DocumentVersion). x.document_id) is_v ∙ own in
      let here : revise env max s.document s.versions file summary ≡ ok v =
        subst (λ rows. revise env max s.document rows file summary ≡ ok v) holds.version_rows
          done in
      let kept : (v.document_id == s.document.id) ≡ true = ground arith in
      let added : versions_of s.document.id (v ∷ []) ≡ v ∷ [] = rw kept refl in
      let s' : Controlled = record s { versions = s.versions ++ v ∷ [] } in
      (
        s',
        rw (fresh, here) refl,
        subst (λ x. Holds x s') writes
            (record {
              document_row = unfold insert in holds.document_row;
              version_rows =
                  ap (versions_of s.document.id)
                    (rows-insert version_table env db db v (session_of env))
                  ∙ filter-append (λ w. w.document_id == s.document.id) db.versions (v ∷ [])
                  ∙ ap (λ rows. rows ++ versions_of s.document.id (v ∷ [])) holds.version_rows
                  ∙ ap (λ rows. s.versions ++ rows) added;
            }),
      )
