-- ===== src/Models/Document.antt =====
-- app/models/document.py
use cron_qms.Prelude.{
  ℕ, String, Bool, true, false, Option, none, some, List, [], ◌∷◌, filter, first, ◌==◌,
}
use cron_qms.Dates.{Date}
use cron_qms.Core.Values.{Value, text, num, flag, opt_text, opt_num, opt_day}

pub data DocumentCategory : Type 0 where
  sop policy work_instruction form specification record_category other : DocumentCategory

abbrev pub category_value : DocumentCategory → String
category_value sop = "SOP"
category_value policy = "Policy"
category_value work_instruction = "Work_Instruction"
category_value form = "Form"
category_value specification = "Specification"
category_value record_category = "Record"
category_value other = "Other"

pub data DocumentVersionStatus : Type 0 where
  draft in_review pending_approval effective obsolete rejected : DocumentVersionStatus

abbrev pub status_value : DocumentVersionStatus → String
status_value draft = "Draft"
status_value in_review = "In_Review"
status_value pending_approval = "Pending_Approval"
status_value effective = "Effective"
status_value obsolete = "Obsolete"
status_value rejected = "Rejected"

abbrev pub is_effective : DocumentVersionStatus → Bool
is_effective effective = true
is_effective _ = false

-- The versions stand in the table of `DocumentVersion`, and name their document by its id.
pub record Document : Type 0 where
  pub id : ℕ
  pub organization_id : ℕ
  pub document_number : String
  pub title : String
  pub category : DocumentCategory
  pub description : Option String
  pub owner_id : Option ℕ
  pub owner_group_id : Option ℕ
  pub review_period_months : Option ℕ
  pub next_review_date : Option Date
  pub retention_period_months : Option ℕ
  pub retention_until : Option Date
  pub created_by : ℕ
  pub is_active : Bool

pub record DocumentVersion : Type 0 where
  pub id : ℕ
  pub organization_id : ℕ
  pub document_id : ℕ
  pub version_number : ℕ
  pub status : DocumentVersionStatus
  pub change_summary : Option String
  pub filename : String
  pub content_type : Option String
  pub size_bytes : ℕ
  pub checksum : String
  pub storage_key : String
  pub author_id : ℕ
  pub reviewed_by : Option ℕ
  pub reviewed_at : Option ℕ
  pub approved_by : Option ℕ
  pub approved_at : Option ℕ
  pub effective_date : Option Date

-- `Document.__audit_fields__` with the values of the columns
unfoldable pub document_fields : Document → List (String × Value)
document_fields d =
    ("document_number", text d.document_number)
    ∷ ("title", text d.title)
    ∷ ("category", text (category_value d.category))
    ∷ ("owner_id", opt_num d.owner_id)
    ∷ ("owner_group_id", opt_num d.owner_group_id)
    ∷ ("review_period_months", opt_num d.review_period_months)
    ∷ ("next_review_date", opt_day d.next_review_date)
    ∷ ("retention_period_months", opt_num d.retention_period_months)
    ∷ ("retention_until", opt_day d.retention_until)
    ∷ ("is_active", flag d.is_active)
    ∷ []

-- `DocumentVersion.__audit_fields__` with the values of the columns
unfoldable pub version_fields : DocumentVersion → List (String × Value)
version_fields v =
    ("version_number", num v.version_number)
    ∷ ("status", text (status_value v.status))
    ∷ ("change_summary", opt_text v.change_summary)
    ∷ ("reviewed_by", opt_num v.reviewed_by)
    ∷ ("approved_by", opt_num v.approved_by)
    ∷ ("effective_date", opt_day v.effective_date)
    ∷ []

-- The relationship `document.versions`: the rows of one document, in the table's order, which is
-- the order of their numbers.
abbrev pub versions_of : ℕ → List DocumentVersion → List DocumentVersion
versions_of document_id rows = filter (λ v. v.document_id == document_id) rows

-- `current_version`
unfoldable pub current_version : List DocumentVersion → Option DocumentVersion
current_version versions = first (λ v. is_effective v.status) versions

-- `latest_version`
unfoldable pub latest_version : List DocumentVersion → Option DocumentVersion
latest_version [] = none
latest_version (v ∷ []) = some v
latest_version (_ ∷ w ∷ rest) = latest_version (w ∷ rest)

-- `Document.status`
unfoldable pub document_status : List DocumentVersion → DocumentVersionStatus
unfolding current_version latest_version
document_status versions = elim (current_version versions) [
  | some v ↦ v.status
  | none ↦ elim (latest_version versions) [ some v ↦ v.status | none ↦ draft ]
]
