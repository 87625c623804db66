-- ===== src/Routes/Documents/Refinement/Rows.antt =====
-- The rows of one document in the table of versions, before and after a commit.
use cron_qms.Prelude.{
  ℕ, ◌≡◌, refl, inl, inr, sym, ap, subst, ◌∙◌, Bool, true, false, some, List, [], ◌∷◌, arith, All,
  filter, first, overwrite, overwrite-hit, Bool-cases, ◌==◌,
}
use cron_qms.Models.Document.{DocumentVersion, versions_of}
use cron_qms.Core.Audit.{Session}
use cron_qms.Core.Audit.Recorded.{DistinctIds}
use cron_qms.Db.{Db, Env}
use cron_qms.Routes.Scoped.{is_row, save}
use cron_qms.Routes.Scoped.Writes.{rows-save}
use cron_qms.Routes.Tables.{version_table}
use cron_qms.Routes.Documents.Versions.{save_all, with_version}
use cron_qms.Routes.Documents.Lifecycle.{is_version}

module _ (k : ℕ) where
  -- A version that the query finds in the table is found among those of its document.
  pub first-versions_of :
      (rows : List DocumentVersion) (id : ℕ) {v : DocumentVersion}
      → first (is_row version_table id) rows ≡ some v
      → v.document_id ≡ k
      → first (is_version id) (versions_of k rows) ≡ some v
  first-versions_of [] id h own = cc
  first-versions_of (x ∷ rows) id {v} h own = elim (Bool-cases (x.id == id)) [
    | inl y ↦
        let is : x ≡ v = ground arith in
        let kept : (x.document_id == k) ≡ true = ground arith in rw (kept, y, is) refl
    | inr n ↦ let ih = first-versions_of rows id {v = v} (ground arith) own in ground arith
  ]

  -- A write of that row is a write of the row among those of its document.
  pub versions_of-overwrite :
      (rows : List DocumentVersion) (v v' : DocumentVersion)
      → first (is_row version_table v.id) rows ≡ some v
      → v.document_id ≡ k
      → v'.document_id ≡ k
      → v'.id ≡ v.id
      → versions_of k (overwrite (is_row version_table v.id) v' rows)
        ≡ with_version v' (versions_of k rows)
  versions_of-overwrite [] v v' h own own' same = cc
  versions_of-overwrite (x ∷ rows) v v' h own own' same = elim (Bool-cases (x.id == v.id)) [
    | inl y ↦
        let is : x ≡ v = ground arith in
        let x_id : (x.id == v'.id) ≡ true = ground arith in
        let kept : (x.document_id == k) ≡ true = ground arith in
        let kept' : (v'.document_id == k) ≡ true = ground arith in rw (y, kept, kept', x_id) refl
    | inr n ↦
        let ih = versions_of-overwrite rows v v' (ground arith) own own' same in
        let x_id : (x.id == v'.id) ≡ false = ground arith in ground arith
  ]

-- The writes of several rows, each over the row with its key.
unfoldable pub rewrite_all :
    List DocumentVersion → List DocumentVersion → List DocumentVersion → List DocumentVersion
rewrite_all (old ∷ olds) (new ∷ news) rows =
    rewrite_all olds news (overwrite (is_row version_table old.id) new rows)
rewrite_all _ _ rows = rows

pub save_all-versions :
    (env : Env) (s : Session) (db : Db) (olds news : List DocumentVersion)
    → (save_all env s db olds news).versions ≡ rewrite_all olds news db.versions
unfolding save_all rewrite_all
save_all-versions env s db [] news = refl
save_all-versions env s db (old ∷ olds) [] = refl
save_all-versions env s db (old ∷ olds) (new ∷ news) =
    save_all-versions env s (save version_table env s db old new) olds news
    ∙ ap (rewrite_all olds news) (rows-save version_table env db db new s old)

-- The new rows of a document have the keys and the document of the old ones.
abbrev pub SameRows : ℕ → List DocumentVersion → List DocumentVersion → Type 0
SameRows k [] [] = Unit
SameRows k (old ∷ olds) (new ∷ news) =
    (new.id ≡ old.id) × (new.document_id ≡ k) × SameRows k olds news
SameRows k _ _ = ⊥

abbrev Without : ℕ → List DocumentVersion → Type 0
Without id rows = All (λ w. (id == w.id) ≡ false) rows

Without-filter :
    (keep : DocumentVersion → Bool) (id : ℕ) (rows : List DocumentVersion)
    → Without id rows
    → Without id (filter keep rows)
Without-filter keep id [] h = tt
Without-filter keep id (x ∷ rows) h = elim (Bool-cases (keep x)) [
  | inl y ↦ rw y (h.0, Without-filter keep id rows h.1)
  | inr n ↦ rw n (Without-filter keep id rows h.1)
]

-- Writes of other rows pass over a row.
rewrite_all-cons :
    (olds news rows : List DocumentVersion) (x : DocumentVersion)
    → Without x.id olds
    → rewrite_all olds news (x ∷ rows) ≡ x ∷ rewrite_all olds news rows
unfolding rewrite_all
rewrite_all-cons [] news rows x h = refl
rewrite_all-cons (old ∷ olds) [] rows x h = refl
rewrite_all-cons (old ∷ olds) (new ∷ news) rows x h =
    let n : (x.id == old.id) ≡ false = h.0 in
    rw n (rewrite_all-cons olds news (overwrite (is_row version_table old.id) new rows) x h.1)

module _ (k : ℕ) (x : DocumentVersion) (rows : List DocumentVersion)
    (apart : Without x.id rows) where
  abbrev olds : List DocumentVersion
  olds = versions_of k rows

  others : Without x.id olds
  others = Without-filter (λ v. v.document_id == k) x.id rows apart

  -- A row of the document is written first.
  written_first :
      (new : DocumentVersion) (news : List DocumentVersion)
      → new.id ≡ x.id
      → new.document_id ≡ k
      → versions_of k (rewrite_all olds news rows) ≡ news
      → versions_of k (rewrite_all (x ∷ olds) (new ∷ news) (x ∷ rows)) ≡ new ∷ news
  unfolding rewrite_all
  written_first new news same own ih =
      let kept : (new.document_id == k) ≡ true = ground arith in
      let passed =
        rewrite_all-cons olds news rows new (subst (λ i. Without i olds) (sym same) others) in
      let hit : is_row version_table x.id x ≡ true = ground arith in
      let first_write = overwrite-hit (is_row version_table x.id) new x rows hit in
      ap (versions_of k) (ap (rewrite_all olds news) first_write ∙ passed)
      ∙ rw kept (ap (λ ws. new ∷ ws) ih)

  -- A row of another document stays.
  passed_over :
      (news : List DocumentVersion)
      → (x.document_id == k) ≡ false
      → versions_of k (rewrite_all olds news rows) ≡ news
      → versions_of k (rewrite_all olds news (x ∷ rows)) ≡ news
  passed_over news other ih = rw (rewrite_all-cons olds news rows x others, other) ih

-- The writes of all the rows of a document leave it with the new ones.
pub versions_of-rewrite_all :
    (k : ℕ) (rows news : List DocumentVersion)
    → DistinctIds version_table.audited rows
    → SameRows k (versions_of k rows) news
    → versions_of k (rewrite_all (versions_of k rows) news rows) ≡ news
unfolding rewrite_all
versions_of-rewrite_all k [] [] distinct same = refl
versions_of-rewrite_all k [] (_ ∷ _) distinct same = elim same [ ]
versions_of-rewrite_all k (x ∷ rows) [] distinct same = elim (Bool-cases (x.document_id == k)) [
  | inl y ↦ absurd (rw y at same)
  | inr n ↦ rw n (
      passed_over k x rows distinct.0 [] n
        (versions_of-rewrite_all k rows [] distinct.1 (rw n at same)))
]
versions_of-rewrite_all k (x ∷ rows) (new ∷ news) distinct same =
    elim (Bool-cases (x.document_id == k)) [
      | inl y ↦
          let (id, own, rest) : (new.id ≡ x.id)
              × (new.document_id ≡ k)
              × SameRows k (versions_of k rows) news =
            rw y at same in
          rw y (
            written_first k x rows distinct.0 new news id own
              (versions_of-rewrite_all k rows news distinct.1 rest))
      | inr n ↦ rw n (
          passed_over k x rows distinct.0 (new ∷ news) n
            (versions_of-rewrite_all k rows (new ∷ news) distinct.1 (rw n at same)))
    ]
