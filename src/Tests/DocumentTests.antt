-- ===== src/Tests/DocumentTests.antt =====
-- A controlled document and its versions.
use cron_qms.Prelude.{
  ℕ, ◌≡◌, ◌≢◌, ◌↔◌, refl, true, none, some, Option, List, [], ◌∷◌, ok, arith, Result, run,
}
use cron_qms.Dates.{date, days_in_month, add_months}
use cron_qms.Models.Document.{
  Document, DocumentVersion, sop, pending_approval, effective, obsolete, current_version,
  document_status,
}
use cron_qms.Services.DocumentWorkflow
use cron_qms.Services.DocumentWorkflow.{submit_for_review, sign_off_review, scheduled, superseded}
use cron_qms.Services.DocumentWorkflow.Approval.{IsPlanned, AreSuperseded, approval_iff}
use cron_qms.Routes.Documents.Lifecycle
use cron_qms.Routes.Documents.Lifecycle.{
  Controlled, Action, upload, submit, review, approve, step, IsControlled,
}
use cron_qms.Routes.Documents.Lifecycle.Control.{run-IsControlled}
use cron_qms.Routes.Documents.Lifecycle.Current.{approve-current_version}
use cron_qms.Tests.Fixtures.{boss, env}

abbrev pub manual : Document
manual = record {
  id = 30;
  organization_id = 7;
  document_number = "SOP-1";
  title = "Manual";
  category = sop;
  description = none;
  owner_id = none;
  owner_group_id = none;
  review_period_months = some 1;
  next_review_date = none;
  retention_period_months = none;
  retention_until = none;
  created_by = 2;
  is_active = true;
}

abbrev pub first_version : DocumentVersion
first_version = record {
  id = 40;
  organization_id = 7;
  document_id = 30;
  version_number = 1;
  status = pending_approval;
  change_summary = none;
  filename = "manual.pdf";
  content_type = none;
  size_bytes = 9;
  checksum = "00";
  storage_key = "documents/30/0";
  author_id = 2;
  reviewed_by = some 3;
  reviewed_at = some 0;
  approved_by = none;
  approved_at = none;
  effective_date = none;
}

abbrev pub state : Controlled
state = record { document = manual; versions = first_version ∷ [] }

pub state-IsControlled : IsControlled state
state-IsControlled = record {
  unique = λ k. ground arith;
  one_effective = omega arith;
  one_in_progress = omega arith;
  segregated = (
    record {
      reviewed = λ r n. cc;
      approved = λ r. cc;
      unsigned = λ r. refl;
      reviewer = λ u r e. cc;
      approver = λ u r. cc;
    },
    tt,
  );
}

abbrev history : List Action
history = approve env 40 ∷ []

run-IsControlled_example : IsControlled (run step state history)
run-IsControlled_example = run-IsControlled state history state-IsControlled

abbrev pub approved : DocumentVersion
approved = record first_version {
  status = effective;
  approved_by = some 1;
  approved_at = some 1000;
  effective_date = some (date 2024 1 31);
}

abbrev pub reviewed_manual : Document
reviewed_manual = record manual { next_review_date = some (date 2024 2 29) }

abbrev approved_state : Controlled
approved_state = record { document = reviewed_manual; versions = approved ∷ [] }

approval : Lifecycle.perform state (approve env 40) ≡ ok approved_state
unfolding Lifecycle.perform Lifecycle.find DocumentWorkflow.approve scheduled add_months superseded
    days_in_month
approval = refl

approve-current_version_example :
    (v : DocumentVersion) × (current_version (approved ∷ []) ≡ some v)
    × (v.id ≡ 40)
    × (v.approved_by ≡ some 1)
    × (v.effective_date ≡ some (date 2024 1 31))
    × (document_status (approved ∷ []) ≡ effective)
approve-current_version_example = approve-current_version state env 40 state-IsControlled approval

-- A second version replaces the first.
abbrev old_version : DocumentVersion
old_version = record first_version { id = 39; status = effective }

abbrev retired_version : DocumentVersion
retired_version = record old_version { status = obsolete }

approval_iff_example :
    ◌≡◌ {A = Result (Document × List DocumentVersion × DocumentVersion)}
      (DocumentWorkflow.approve manual
        (old_version ∷ first_version ∷ [])
        first_version
        boss
        (date 2024 1 31)
        1000)
      (ok (reviewed_manual, retired_version ∷ first_version ∷ [], approved))
    ↔ ((pending_approval ≡ pending_approval)
        × (◌≢◌ {A = ℕ} 1 2)
        × (◌≢◌ {A = Option ℕ} (some 3) (some 1))
        × IsPlanned (some 1) (date 2024 1 31) (some (date 2024 2 29))
        × (reviewed_manual
            ≡ record manual { next_review_date = some (date 2024 2 29); retention_until = none })
        × AreSuperseded 40 (old_version ∷ first_version ∷ []) (retired_version ∷ first_version ∷ [])
        × (approved ≡ record first_version {
          status = effective;
          approved_by = some 1;
          approved_at = some 1000;
          effective_date = some (date 2024 1 31);
        }))
approval_iff_example =
    approval_iff first_version manual (old_version ∷ first_version ∷ []) boss (date 2024 1 31) 1000
      reviewed_manual (retired_version ∷ first_version ∷ []) approved
