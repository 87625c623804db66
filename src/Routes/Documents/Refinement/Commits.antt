-- ===== src/Routes/Documents/Refinement/Commits.antt =====
-- The commit of all the versions of a document.
use cron_qms.Prelude.{ℕ, ◌≡◌, refl, sym, ap, subst, ◌∙◌, some, List, [], ◌∷◌, arith, first}
use cron_qms.Models.Document.{DocumentVersion, versions_of}
use cron_qms.Core.Audit.{Session}
use cron_qms.Core.Audit.Recorded.{DistinctIds}
use cron_qms.Db.{Db, Env}
use cron_qms.Routes.Scoped.{is_row, save}
use cron_qms.Routes.Tables.{document_table, version_table}
use cron_qms.Routes.Documents.Versions.{with_version}
use cron_qms.Routes.Documents.Lifecycle.{Controlled}
use cron_qms.Routes.Documents.Versions.{save_all}
use cron_qms.Routes.Documents.Refinement.{Holds}
use cron_qms.Prelude.{All, Bool-cases, ◌==◌, inl, inr, map}
use cron_qms.Services.DocumentWorkflow.{superseded}
use cron_qms.Routes.Documents.Refinement.Rows.{SameRows, save_all-versions, versions_of-rewrite_all}

abbrev OfDocument : ℕ → List DocumentVersion → Type 0
OfDocument k rows = All (λ v. v.document_id ≡ k) rows

pub versions_of-OfDocument :
    (k : ℕ) (rows : List DocumentVersion) → OfDocument k (versions_of k rows)
versions_of-OfDocument k [] = tt
versions_of-OfDocument k (x ∷ rows) = elim (Bool-cases (x.document_id == k)) [
  | inl y ↦ rw y (ground arith, versions_of-OfDocument k rows)
  | inr n ↦ rw n (versions_of-OfDocument k rows)
]

-- Superseding and writing back keep the keys and the document of the rows.
pub superseded-SameRows :
    (k id : ℕ) (rows : List DocumentVersion)
    → OfDocument k rows
    → SameRows k rows (map (superseded id) rows)
unfolding superseded
superseded-SameRows k id [] own = tt
superseded-SameRows k id (x ∷ rows) own =
    (ground arith, ground (arith, own.0), superseded-SameRows k id rows own.1)

pub with_version-SameRows :
    (k : ℕ) (v : DocumentVersion) (olds news : List DocumentVersion)
    → v.document_id ≡ k
    → SameRows k olds news
    → SameRows k olds (with_version v news)
with_version-SameRows k v [] [] own same = tt
with_version-SameRows k v [] (_ ∷ _) own same = elim same [ ]
with_version-SameRows k v (_ ∷ _) [] own same = elim same [ ]
with_version-SameRows k v (old ∷ olds) (new ∷ news) own same = elim (Bool-cases (new.id == v.id)) [
  | inl y ↦ let e : v.id ≡ old.id = ground (arith, same.0) in rw y (e, own, same.2)
  | inr n ↦ rw n (same.0, same.1, with_version-SameRows k v olds news own same.2)
]

save_all-documents :
    (env : Env) (s : Session) (db : Db) (olds news : List DocumentVersion)
    → (save_all env s db olds news).documents ≡ db.documents
unfolding save_all save
save_all-documents env s db [] news = refl
save_all-documents env s db (old ∷ olds) [] = refl
save_all-documents env s db (old ∷ olds) (new ∷ news) =
    save_all-documents env s (save version_table env s db old new) olds news

-- A commit of all the versions of a document.
pub saved_all-Holds :
    (env : Env) (session : Session) (db : Db) (s : Controlled) (news : List DocumentVersion)
    → Holds db s
    → DistinctIds version_table.audited db.versions
    → SameRows s.document.id (versions_of s.document.id db.versions) news
    → Holds
        (save_all env session db (versions_of s.document.id db.versions) news)
        (record s { versions = news })
saved_all-Holds env session db s news holds distinct same =
    let olds = versions_of s.document.id db.versions in
    record {
      document_row =
          subst (λ rows. first (is_row document_table s.document.id) rows ≡ some s.document)
            (sym (save_all-documents env session db olds news)) holds.document_row;
      version_rows =
          ap (versions_of s.document.id) (save_all-versions env session db olds news)
          ∙ versions_of-rewrite_all s.document.id db.versions news distinct same;
    }
