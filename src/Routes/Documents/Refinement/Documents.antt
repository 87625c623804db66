-- ===== src/Routes/Documents/Refinement/Documents.antt =====
-- The handlers of a version that read or write its document too.
use cron_qms.Prelude.{
  ℕ, String, ◌≡◌, refl, sym, ap, subst, ◌∙◌, true, some, arith, Result, ok, http, first, Option,
  overwrite, first-holds, first-overwrite, >>=-eq-ok, ok-pair,
}
use cron_qms.Models.Document.{Document, DocumentVersion, versions_of}
use cron_qms.Core.Audit.{Session}
use cron_qms.Core.Permissions.{document_obsolete}
use cron_qms.Db.{Db, Env, session_of}
use cron_qms.Services.DocumentWorkflow
use cron_qms.Services.DocumentWorkflow.{submit_for_review, sign_off_review}
use cron_qms.Routes.Access.{require}
use cron_qms.Routes.Scoped.{is_row, save}
use cron_qms.Routes.Scoped.Writes.{get_in_org-IsFound}
use cron_qms.Routes.Tables.{document_table, version_table}
use cron_qms.Routes.Documents.{get_document_in_org}
use cron_qms.Routes.Documents.Versions.{get_version_in_org, with_version}
use cron_qms.Routes.Documents.Lifecycle
use cron_qms.Routes.Documents.Lifecycle.{Controlled, Action, find, perform, is_version}
use cron_qms.Services.DocumentWorkflow.Rules.{obsolete_version_iff}
use cron_qms.Routes.Documents.Versions.{obsolete_version}
use cron_qms.Routes.Documents.Refinement.{Holds, find-held, saved-Holds}
use cron_qms.Routes.Documents.Refinement.Handlers.{Steps}

-- The document that the handler reads is the one of the history.
pub held_document :
    (env : Env) (db : Db) (s : Controlled) (k : ℕ) {d : Document}
    → Holds db s
    → get_document_in_org env db k ≡ ok d
    → k ≡ s.document.id
    → d ≡ s.document
held_document env db s k {d} holds found own =
    let is_found =
      get_in_org-IsFound document_table (http 404 "Document not found") env db k found in
    let row =
      subst (λ i. first (is_row document_table i) db.documents ≡ some d) (is_found.asked ∙ own)
        is_found.found in
    some_injective (sym row ∙ holds.document_row)
  where
    some_injective : {x y : Document} → ◌≡◌ {A = Option Document} (some x) (some y) → x ≡ y
    some_injective e = cc

-- A commit of the document keeps its versions.
pub saved_document-Holds :
    (env : Env) (session : Session) (db : Db) (s : Controlled) (d' : Document)
    → Holds db s
    → d'.id ≡ s.document.id
    → d'.is_active ≡ s.document.is_active
    → Holds (save document_table env session db s.document d') (record s { document = d' })
unfolding save
saved_document-Holds env session db s d' holds same active =
    let test = is_row document_table s.document.id in
    let stands = first-holds test db.documents holds.document_row in
    let passes : test d' ≡ true = ground arith in
    let written = first-overwrite test d' db.documents holds.document_row passes in
    record {
      document_row =
          subst (λ i. first (is_row document_table i) (overwrite test d' db.documents) ≡ some d')
            (sym same) written;
      version_rows = ap (λ i. versions_of i db.versions) same ∙ holds.version_rows;
    }

retired_same :
    (db : Session) (d : Document) (v : DocumentVersion) (reason : String) (env : Env)
    {r : Session × Document × DocumentVersion}
    → DocumentWorkflow.obsolete_version db d v reason env.today ≡ ok r
    → (r.2.document_id ≡ v.document_id)
      × (r.2.id ≡ v.id)
      × (r.1.id ≡ d.id)
      × (r.1.is_active ≡ d.is_active)
retired_same db d v reason env {r} h =
    let (_, _, (_, _, is), is') = (obsolete_version_iff v db d reason env.today r.0 r.1 r.2).0 h in
    ground arith

module _ (env : Env) (db : Db) (s : Controlled) (holds : Holds db s) {db' : Db}
    {v' : DocumentVersion} (own : v'.document_id ≡ s.document.id) where
  retired-Steps :
      (id : ℕ) (reason : String) (v : DocumentVersion) (d : Document)
      (r : Session × Document × DocumentVersion)
      → get_version_in_org env db id ≡ ok v
      → d ≡ s.document
      → DocumentWorkflow.obsolete_version (session_of env) d v reason env.today ≡ ok r
      → ◌≡◌ {A = Result (Db × DocumentVersion)}
          (ok (save version_table env r.0 (save document_table env r.0 db d r.1) v r.2, r.2))
          (ok (db', v'))
      → v.document_id ≡ s.document.id
      → Steps db' s (Lifecycle.retire env (session_of env) id reason)
  unfolding perform
  retired-Steps id reason v d r found is done h own1 =
      let here =
        subst (λ x. DocumentWorkflow.obsolete_version (session_of env) x v reason env.today ≡ ok r)
          is done in
      let (same_doc, same_id, same_key, active) =
        retired_same (session_of env) s.document v reason env here in
      let (writes, _) =
        ok-pair (save version_table env r.0 (save document_table env r.0 db d r.1) v r.2) db' r.2 v'
          h in
      let (held, row) = find-held env db s holds id found own1 in
      let s1 : Controlled = record s { document = r.1 } in
      let holds1 = saved_document-Holds env r.0 db s r.1 holds same_key active in
      let s' : Controlled = record { document = r.1; versions = with_version r.2 s.versions } in
      let own_v : v.document_id ≡ r.1.id = own1 ∙ sym same_key in
      let saved =
        saved-Holds env (save document_table env r.0 db s.document r.1) s1 holds1 r.0 v r.2
          (unfold save in row) own_v (same_doc ∙ own_v) same_id in
      (
        s',
        rw (held, here) refl,
        subst (λ x. Holds x s')
            (subst
              (λ x. save version_table env r.0 (save document_table env r.0 db x r.1) v r.2 ≡ db')
              is writes)
            saved,
      )

  pub obsolete-Steps :
      (id : ℕ) (reason : String)
      → obsolete_version env db id reason ≡ ok (db', v')
      → Steps db' s (Lifecycle.retire env (session_of env) id reason)
  unfolding obsolete_version
  obsolete-Steps id reason h =
      let (_, _, h1) = >>=-eq-ok (require document_obsolete env db) _ h in
      let (v, found, h2) = >>=-eq-ok (get_version_in_org env db id) _ h1 in
      let (d, found_d, h3) = >>=-eq-ok (get_document_in_org env db v.document_id) _ h2 in
      let (r, done, h4) =
        >>=-eq-ok (DocumentWorkflow.obsolete_version (session_of env) d v reason env.today) _ h3 in
      let is_v = (ok-pair _ db' r.2 v' h4).1 in
      let own1 : v.document_id ≡ s.document.id =
        sym ((retired_same (session_of env) d v reason env done).0)
        ∙ ap (λ (x : DocumentVersion). x.document_id) is_v
        ∙ own in
      retired-Steps id reason v d r found (held_document env db s v.document_id holds found_d own1)
        done h4 own1
