-- ===== src/Tests/DocumentRouteTests.antt =====
-- The document routes on a database with one document.
use cron_qms.Prelude.{◌≡◌, refl, none, some, List, [], ◌∷◌, ◌++◌, ok, All}
use cron_qms.Models.Document.{Document, sop}
use cron_qms.Models.History.{HistoryRow}
use cron_qms.Core.Audit.Replay.{Shows-nil}
use cron_qms.Core.Permissions.{
  require_permission, has, all_permissions, resolve_from_db, user_has_permission,
}
use cron_qms.Db.{Db, session_of}
use cron_qms.Dates.{add_months, days_in_month}
use cron_qms.Services.DocumentWorkflow
use cron_qms.Services.DocumentWorkflow.{scheduled, superseded}
use cron_qms.Routes.Access
use cron_qms.Routes.Access.{require}
use cron_qms.Routes.Scoped.{get_in_org, save, insert}
use cron_qms.Routes.Scoped.Writes.{foreign}
use cron_qms.Routes.Scoped.Trail.{IsBy, IsAudited, IsNewKey}
use cron_qms.Routes.Tables.{document_table, version_table}
use cron_qms.Routes.Documents
use cron_qms.Routes.Documents.Scope.{document_request_scope}
use cron_qms.Routes.Documents.Versions
use cron_qms.Routes.Documents.Lifecycle.{Controlled, perform, IsControlled}
use cron_qms.Routes.Documents.Lifecycle
use cron_qms.Routes.Documents.Refinement.{Holds}
use cron_qms.Routes.Documents.Refinement.Steps.{handle-perform}
use cron_qms.Tests.Fixtures.{env, empty_db}
use cron_qms.Tests.DocumentTests.{
  manual, first_version, reviewed_manual, approved, state, state-IsControlled,
}

abbrev one_document : Db
one_document = record empty_db { documents = manual ∷ []; versions = first_version ∷ [] }

abbrev with_manual : Db
with_manual = save document_table env (session_of env) one_document manual reviewed_manual

approval :
    Versions.handle env 100 one_document (Versions.approve 40)
    ≡ ok (save version_table env (session_of env) with_manual first_version approved, approved)
unfolding Versions.handle Versions.save_all get_in_org require require_permission
    user_has_permission has resolve_from_db all_permissions DocumentWorkflow.approve scheduled
    superseded add_months days_in_month
approval = refl

one_document-Holds : Holds one_document state
one_document-Holds = record { document_row = refl; version_rows = refl }

handle-perform_example :
    (s' : Controlled) × (perform state (Lifecycle.approve env 40) ≡ ok s')
    × Holds (save version_table env (session_of env) with_manual first_version approved) s'
    × IsControlled s'
handle-perform_example =
    handle-perform env 100 one_document state (Versions.approve 40) one_document-Holds
      state-IsControlled (tt, tt) refl approval refl

abbrev form : Documents.DocumentCreate
form = record {
  document_number = "SOP-1";
  title = "Manual";
  category = sop;
  description = none;
  owner_id = none;
  owner_group_id = none;
  review_period_months = some 1;
  retention_period_months = none;
}

abbrev registered : Document
registered = record manual { id = 11; created_by = 1 }

registration :
    Documents.handle env empty_db (Documents.create form)
    ≡ ok (insert document_table env (session_of env) empty_db registered, registered)
unfolding Documents.handle require require_permission user_has_permission has resolve_from_db
    all_permissions Access.require_organization
registration = refl

empty_db-IsNewDocument : IsNewKey document_table env empty_db
empty_db-IsNewDocument = record {
  unused = tt;
  silent = Shows-nil (record { entity = "document"; id = 11 });
}

document_request_scope_example :
    (foreign document_table env
        (insert document_table env (session_of env) empty_db registered).documents
      ≡ foreign document_table env [])
    × IsAudited document_table (insert document_table env (session_of env) empty_db registered)
    × ((rows : List HistoryRow) × ((insert document_table env
            (session_of env)
            empty_db
            registered).history
          ≡ [] ++ rows)
        × All (IsBy document_table env registered) rows)
document_request_scope_example =
    document_request_scope env empty_db (Documents.create form) empty_db-IsNewDocument
      (record { recorded = tt; keys = tt }) registration
