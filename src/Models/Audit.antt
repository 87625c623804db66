-- ===== src/Models/Audit.antt =====
-- app/models/audit.py
use cron_qms.Prelude.{ℕ, String, Bool, true, false, not, Option, List, [], ◌∷◌, ◌==◌, filter, count}
use cron_qms.Dates.{Date}
use cron_qms.Core.Values.{Value, text, flag, opt_text, opt_num, opt_day}

pub data AuditType : Type 0 where
  internal external supplier : AuditType

abbrev pub type_value : AuditType → String
type_value internal = "Internal"
type_value external = "External"
type_value supplier = "Supplier"

pub data AuditStatus : Type 0 where
  planned in_progress completed closed cancelled : AuditStatus

abbrev pub status_value : AuditStatus → String
status_value planned = "Planned"
status_value in_progress = "In_Progress"
status_value completed = "Completed"
status_value closed = "Closed"
status_value cancelled = "Cancelled"

pub data ChecklistResult : Type 0 where
  pending conforms minor_nc major_nc observation not_applicable : ChecklistResult

pub data FindingSeverity : Type 0 where
  ofi observed minor major : FindingSeverity

abbrev pub severity_value : FindingSeverity → String
severity_value ofi = "OFI"
severity_value observed = "Observation"
severity_value minor = "Minor"
severity_value major = "Major"

pub data FindingStatus : Type 0 where
  open_finding finding_in_progress closed_finding : FindingStatus

abbrev pub finding_value : FindingStatus → String
finding_value open_finding = "Open"
finding_value finding_in_progress = "In_Progress"
finding_value closed_finding = "Closed"

-- The checklist items and the findings of an audit stand in tables of their own.
pub record Audit : Type 0 where
  pub id : ℕ
  pub organization_id : ℕ
  pub reference : String
  pub title : String
  pub audit_type : AuditType
  pub status : AuditStatus
  pub scope : Option String
  pub standard : Option String
  pub lead_auditor_id : Option ℕ
  pub auditee : Option String
  pub planned_date : Option Date
  pub start_date : Option Date
  pub end_date : Option Date
  pub summary : Option String
  pub created_by : ℕ
  pub is_active : Bool

pub record AuditChecklistItem : Type 0 where
  pub id : ℕ
  pub organization_id : ℕ
  pub audit_id : ℕ
  pub clause : Option String
  pub question : String
  pub result : ChecklistResult
  pub notes : Option String
  pub display_order : ℕ

pub record AuditFinding : Type 0 where
  pub id : ℕ
  pub organization_id : ℕ
  pub audit_id : ℕ
  pub checklist_item_id : Option ℕ
  pub title : String
  pub description : Option String
  pub severity : FindingSeverity
  pub status : FindingStatus
  pub owner_id : Option ℕ
  pub due_date : Option Date
  pub capa_id : Option ℕ
  pub created_by : ℕ

-- `Audit.__audit_fields__` with the values of the columns
unfoldable pub audit_fields : Audit → List (String × Value)
audit_fields a =
    ("reference", text a.reference)
    ∷ ("title", text a.title)
    ∷ ("audit_type", text (type_value a.audit_type))
    ∷ ("status", text (status_value a.status))
    ∷ ("scope", opt_text a.scope)
    ∷ ("standard", opt_text a.standard)
    ∷ ("lead_auditor_id", opt_num a.lead_auditor_id)
    ∷ ("auditee", opt_text a.auditee)
    ∷ ("planned_date", opt_day a.planned_date)
    ∷ ("start_date", opt_day a.start_date)
    ∷ ("end_date", opt_day a.end_date)
    ∷ ("summary", opt_text a.summary)
    ∷ ("is_active", flag a.is_active)
    ∷ []

-- `AuditFinding.__audit_fields__` with the values of the columns
unfoldable pub finding_fields : AuditFinding → List (String × Value)
finding_fields f =
    ("title", text f.title)
    ∷ ("description", opt_text f.description)
    ∷ ("severity", text (severity_value f.severity))
    ∷ ("status", text (finding_value f.status))
    ∷ ("owner_id", opt_num f.owner_id)
    ∷ ("due_date", opt_day f.due_date)
    ∷ ("capa_id", opt_num f.capa_id)
    ∷ []

-- The relationships `audit.findings` and `audit.checklist_items`. Nothing that is modelled reads
-- their order.
abbrev pub findings_of : ℕ → List AuditFinding → List AuditFinding
findings_of audit_id rows = filter (λ f. f.audit_id == audit_id) rows

abbrev pub items_of : ℕ → List AuditChecklistItem → List AuditChecklistItem
items_of audit_id rows = filter (λ i. i.audit_id == audit_id) rows

abbrev pub is_closed : FindingStatus → Bool
is_closed closed_finding = true
is_closed _ = false

-- `open_findings_count`
unfoldable pub open_findings_count : List AuditFinding → ℕ
open_findings_count findings = count (λ f. not (is_closed f.status)) findings
