-- ===== src/Services/DocumentWorkflow/Approval.antt =====
-- The approval of app/services/document_workflow.py: the supersession and the next review in words of
-- their own.
use cron_qms.Prelude.{
  ℕ, zero, suc, ◌≡◌, ◌≢◌, ◌⊎◌, ◌↔◌, refl, sym, ap, ◌∙◌, >>=-eq-ok, subst, inl, inr, Bool-cases, not,
  ◌&&◌, ◌==◌, none, some, List, [], ◌∷◌, map, arith, Result, ok, Option,
}
use cron_qms.Dates.{Date, add_months}
use cron_qms.Models.User.{User}
use cron_qms.Models.Document.{
  Document, DocumentVersion, pending_approval, effective, obsolete, is_effective,
}
use cron_qms.Services.DocumentWorkflow.{scheduled, superseded, approve}
use cron_qms.Services.DocumentWorkflow.Rules.{approve_iff}

-- Without a period, or with the period 0, no date is set; otherwise the date that many months from
-- today.
pub data IsPlanned (months : Option ℕ) (today : Date) (day : Option Date) : Type 0 where
  never : (months ≡ none) ⊎ (months ≡ some 0) → day ≡ none → IsPlanned months today day
  planned :
      (n : ℕ) (d : Date)
      → months ≡ some (suc n)
      → add_months today (suc n) ≡ ok d
      → day ≡ some d
      → IsPlanned months today day

-- What becomes of one row: another version in effect gets obsolete, every other row stays.
pub data IsSuperseded (approved_id : ℕ) (v v' : DocumentVersion) : Type 0 where
  retired :
      v.id ≢ approved_id
      → v.status ≡ effective
      → v' ≡ record v { status = obsolete }
      → IsSuperseded approved_id v v'
  kept : (v.id ≡ approved_id) ⊎ (v.status ≢ effective) → v' ≡ v → IsSuperseded approved_id v v'

-- The rows one by one, in their order.
abbrev pub AreSuperseded : ℕ → List DocumentVersion → List DocumentVersion → Type 0
AreSuperseded id [] [] = Unit
AreSuperseded id (v ∷ vs) (v' ∷ vs') = IsSuperseded id v v' × AreSuperseded id vs vs'
AreSuperseded id _ _ = ⊥

scheduled-IsPlanned :
    (months : Option ℕ) (today : Date) (day : Option Date)
    → (scheduled months today ≡ ok day) ↔ IsPlanned months today day
unfolding scheduled
scheduled-IsPlanned none today day = (λ h. never (inl refl) (ground arith), λ h. ground arith)
scheduled-IsPlanned (some zero) today day =
    (λ h. never (inr refl) (ground arith), λ h. ground arith)
scheduled-IsPlanned (some (suc n)) today day = (
  λ h.
      let (d, is, rest) = >>=-eq-ok (add_months today (suc n)) _ h in
      planned n d refl is (ground arith),
  λ h. elim h [
    | never unset is ↦ absurd (ground arith)
    | planned m d months_are is day_is ↦
        let m_is_n : m ≡ n = ground arith in
        let there : add_months today (suc n) ≡ ok d =
          ap (λ k. add_months today (suc k)) (sym m_is_n) ∙ is in
        rw there (ap ok (sym day_is))
  ],
)

superseded-IsSuperseded :
    (id : ℕ) (v v' : DocumentVersion) → (v' ≡ superseded id v) ↔ IsSuperseded id v v'
unfolding superseded
superseded-IsSuperseded id v v' = (
  λ h. elim (Bool-cases (not (v.id == id) && is_effective v.status)) [
    | inl e ↦ retired (λ same. ground arith) (ground arith) (ground arith)
    | inr e ↦
        kept
          (elim (Bool-cases (v.id == id)) [
            | inl same ↦ inl (ground arith)
            | inr other ↦ inr (λ is. ground arith)
          ])
          (ground arith)
  ],
  λ h. elim h [ retired other is_effective is ↦ ground arith | kept why is ↦ ground arith ],
)

map-AreSuperseded :
    (id : ℕ) (vs vs' : List DocumentVersion)
    → (vs' ≡ map (superseded id) vs) ↔ AreSuperseded id vs vs'
map-AreSuperseded id [] [] = (λ h. tt, λ h. refl)
map-AreSuperseded id [] (v' ∷ vs') = (λ h. cc, λ h. absurd h)
map-AreSuperseded id (v ∷ vs) [] = (λ h. cc, λ h. absurd h)
map-AreSuperseded id (v ∷ vs) (v' ∷ vs') =
    let row = superseded-IsSuperseded id v v' in
    let rows = map-AreSuperseded id vs vs' in
    (λ h. (row.0 (ground arith), rows.0 (ground arith)), λ h. cc (row.1 h.0, rows.1 h.1))

-- An approval is accepted exactly for a version pending approval, by a user who is neither its
-- author nor its reviewer, where the date of the next review exists. Every other version of the
-- document that is in effect gets obsolete and the rest of the rows stay, in their order; the
-- version is in effect from today and records the approver and the time; the document gets no
-- retention date, and as its next review the date that its review period lies after today, or none
-- without a period or with the period 0.
pub approval_iff :
    (v : DocumentVersion) (d : Document) (versions : List DocumentVersion) (actor : User)
    (today : Date) (now : ℕ) (d' : Document) (versions' : List DocumentVersion)
    (v' : DocumentVersion)
    → ◌≡◌ {A = Result (Document × List DocumentVersion × DocumentVersion)}
        (approve d versions v actor today now)
        (ok (d', versions', v'))
      ↔ ((v.status ≡ pending_approval)
          × (actor.id ≢ v.author_id)
          × (v.reviewed_by ≢ some actor.id)
          × IsPlanned d.review_period_months today d'.next_review_date
          × (d' ≡ record d { next_review_date = d'.next_review_date; retention_until = none })
          × AreSuperseded v.id versions versions'
          × (v' ≡ record v {
            status = effective;
            approved_by = some actor.id;
            approved_at = some now;
            effective_date = some today;
          }))
approval_iff v d versions actor today now d' versions' v' =
    let rule = approve_iff v d versions actor today now d' versions' v' in
    let rows = map-AreSuperseded v.id versions versions' in
    (
      λ h.
          let (pending, author, reviewer, (next, plans, is), are, new) = rule.0 h in
          let same : next ≡ d'.next_review_date =
            sym (ap (λ (x : Document). x.next_review_date) is) in
          (
            pending,
            author,
            reviewer,
            subst (IsPlanned d.review_period_months today) same
                ((scheduled-IsPlanned d.review_period_months today next).0 plans),
            subst (λ n. d' ≡ record d { next_review_date = n; retention_until = none }) same is,
            rows.0 are,
            new,
          ),
      λ h.
          let (pending, author, reviewer, plans, is, are, new) = h in
          rule.1 (
            pending,
            author,
            reviewer,
            (
              d'.next_review_date,
              (scheduled-IsPlanned d.review_period_months today d'.next_review_date).1 plans,
              is,
            ),
            rows.1 are,
            new,
          ),
    )
