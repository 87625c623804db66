-- ===== src/Routes/Documents/Lifecycle/Writes.antt =====
-- What keeps a document and its versions controlled: the ways in which the operations write them.
use cron_qms.Prelude.{
  ℕ, ◌≡◌, ◌≤◌, ◌⊎◌, inl, inr, true, false, not, ◌&&◌, none, some, [], ◌∷◌, ◌++◌, map, arith,
  All-append, All-mapped, any, first, first-holds, overwrite-All, ◌==◌, ok, Bool-cases, subst, sym,
  ◌∙◌, count-append, none-count, count-map, count-map-le, count-overwrite, count-rewrite,
  count-overwrite-drop, count-overwrite-suc, only-count,
}
use cron_qms.Models.Document.{Document, DocumentVersion, draft, is_effective}
use cron_qms.Services.DocumentWorkflow.{superseded}
use cron_qms.Routes.Documents.Versions.{in_progress, with_version}
use cron_qms.Routes.Documents.Lifecycle.{
  Controlled, is_version, find, in_effect, IsSegregated, IsControlled,
}

pub find-first :
    (s : Controlled) (id : ℕ) {v : DocumentVersion}
    → find s id ≡ ok v
    → first (is_version v.id) s.versions ≡ some v
unfolding find
find-first s id {v} found =
    let h : first (is_version id) s.versions ≡ some v = ground arith in
    let is_id = first-holds (is_version id) s.versions h in
    let e : id ≡ v.id = ground arith in subst (λ k. first (is_version k) s.versions ≡ some v) e h

-- A new key passes the test of another version nowhere.
is_version-of :
    (k : ℕ) (v w : DocumentVersion) → (w.id == v.id) ≡ true → is_version k v ≡ is_version k w
is_version-of k v w e = ground arith

module _ (s : Controlled) (h : IsControlled s) where
  pub appended :
      (v : DocumentVersion)
      → any (is_version v.id) s.versions ≡ false
      → any in_progress s.versions ≡ false
      → v.status ≡ draft
      → v.reviewed_by ≡ none
      → v.approved_by ≡ none
      → IsControlled (record s { versions = s.versions ++ v ∷ [] })
  appended v is_new idle is_draft unreviewed unapproved = record {
    unique = λ k. elim (Bool-cases (is_version k v)) [
      | inl y ↦
          let e : v.id ≡ k = ground arith in
          let none_of : any (is_version k) s.versions ≡ false =
            subst (λ x. any (is_version x) s.versions ≡ false) e is_new in
          ground (
            arith,
            count-append (is_version k) s.versions (v ∷ []),
            none-count (is_version k) s.versions none_of,
          )
      | inr n ↦ ground (arith, count-append (is_version k) s.versions (v ∷ []), h.unique k)
    ];
    one_effective = ground (arith, count-append in_effect s.versions (v ∷ []), h.one_effective);
    one_in_progress = ground (
      arith,
      count-append in_progress s.versions (v ∷ []),
      none-count in_progress s.versions idle,
    );
    segregated = All-append IsSegregated s.versions (v ∷ []) h.segregated (
      record {
        reviewed = λ r. ground arith;
        approved = λ r. ground arith;
        unsigned = λ r. unapproved;
        reviewer = λ u r. ground arith;
        approver = λ u r. ground arith;
      },
      tt,
    );
  }

  -- A version that an operation writes back under its key, and that is not in effect.
  pub written :
      (id : ℕ) (v v' : DocumentVersion) (d : Document)
      → find s id ≡ ok v
      → v'.id ≡ v.id
      → is_effective v'.status ≡ false
      → (in_progress v' ≡ false) ⊎ (in_progress v' ≡ in_progress v)
      → IsSegregated v'
      → IsControlled (record { document = d; versions = with_version v' s.versions })
  written id v v' d found same out stays seg =
      let is_first : first (is_version v'.id) s.versions ≡ some v =
        subst (λ k. first (is_version k) s.versions ≡ some v) (sym same) (find-first s id found) in
      record {
        unique = λ k.
            subst (λ n. n ≤ 1)
              (sym (
                count-overwrite (is_version k) (is_version v'.id) v' s.versions
                  (is_version-of k v')))
              (h.unique k);
        one_effective = omega (
          arith,
          count-overwrite-drop in_effect (is_version v'.id) v' s.versions out,
          h.one_effective,
        );
        one_in_progress = elim stays [
          | inl idle ↦ omega (
            arith,
            count-overwrite-drop in_progress (is_version v'.id) v' s.versions idle,
            h.one_in_progress,
          )
          | inr e ↦ omega (
            arith,
            count-rewrite in_progress (is_version v'.id) v' s.versions is_first e,
            h.one_in_progress,
          )
        ];
        segregated = overwrite-All IsSegregated (is_version v'.id) v' s.versions seg h.segregated;
      }

  superseded-IsSegregated :
      (id : ℕ) (v : DocumentVersion) → IsSegregated v → IsSegregated (superseded id v)
  unfolding superseded
  superseded-IsSegregated id v seg = elim (Bool-cases (not (v.id == id) && is_effective v.status)) [
    | inl y ↦ rw y (record {
      reviewed = λ r. ground arith;
      approved = λ r. ground arith;
      unsigned = λ r. ground arith;
      reviewer = seg.reviewer;
      approver = seg.approver;
    })
    | inr n ↦ rw n seg
  ]

  -- The version in effect after an approval is the approved one.
  pub approved_one :
      (id : ℕ) (v v' : DocumentVersion) (d : Document)
      → find s id ≡ ok v
      → v'.id ≡ v.id
      → is_effective v.status ≡ false
      → in_progress v' ≡ false
      → IsSegregated v'
      → IsControlled
          (record { document = d; versions = with_version v' (map (superseded v.id) s.versions) })
  unfolding superseded
  approved_one id v v' d found same waiting done seg =
      let rows = map (superseded v.id) s.versions in
      let is_first = find-first s id found in
      record {
        unique = λ k.
            subst (λ n. n ≤ 1)
              (sym (
                count-overwrite (is_version k) (is_version v'.id) v' rows (is_version-of k v')
                ∙ count-map (is_version k) (superseded v.id) s.versions (λ w. ground arith)))
              (h.unique k);
        one_effective = omega (
          arith,
          count-overwrite-suc in_effect (is_version v'.id) v' rows,
          count-map-le in_effect (λ w. is_version v.id w && in_effect w) (superseded v.id)
              s.versions (λ w e. ground arith),
          only-count in_effect (is_version v.id) s.versions (h.unique v.id) is_first waiting,
        );
        one_in_progress = omega (
          arith,
          count-overwrite-drop in_progress (is_version v'.id) v' rows done,
          count-map in_progress (superseded v.id) s.versions (λ w. ground arith),
          h.one_in_progress,
        );
        segregated = overwrite-All IsSegregated (is_version v'.id) v' rows seg (
            All-mapped IsSegregated (superseded v.id) s.versions (superseded-IsSegregated v.id)
              h.segregated);
      }
