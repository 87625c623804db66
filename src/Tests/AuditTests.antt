-- ===== src/Tests/AuditTests.antt =====
-- Audits on a small database.
use cron_qms.Prelude.{Any, ◌⊎◌, ◌≡◌, ◌↔◌, refl, true, none, some, [], ◌∷◌, ok, err, http}
use cron_qms.Models.Audit.{
  Audit, AuditFinding, internal, planned, closed, observed, open_finding, pending,
  open_findings_count,
}
use cron_qms.Core.Audit.Replay.{Shows-nil}
use cron_qms.Core.Permissions.{
  require_permission, has, all_permissions, resolve_from_db, user_has_permission, audit_update,
}
use cron_qms.Db.{Db, session_of}
use cron_qms.Routes.Access
use cron_qms.Routes.Access.{require, Field, unset, sent, asked_for}
use cron_qms.Routes.Scoped.{get_in_org, save, insert}
use cron_qms.Routes.Tables.More.{audit_table}
use cron_qms.Routes.Nested.{next_order}
use cron_qms.Routes.Audits
use cron_qms.Routes.Audits.{AuditUpdate, get_audit_in_org, update_audit}
use cron_qms.Routes.Audits.Items
use cron_qms.Routes.Audits.Closing.{
  IsOpenFor, IsResolved, update_audit-status, update_audit_conflict_iff,
}
use cron_qms.Routes.Audits.Requests
use cron_qms.Routes.Audits.WellFormed.{IsWellFormed, IsNewAudit}
use cron_qms.Routes.Audits.Scope.{IsConfined, audit_request_scope}
use cron_qms.Tests.Fixtures.{env, empty_db}

abbrev form : Audits.AuditCreate
form = record {
  reference = "A-1";
  title = "Paint shop";
  audit_type = internal;
  scope = none;
  standard = none;
  lead_auditor_id = none;
  auditee = none;
  planned_date = none;
  start_date = none;
  end_date = none;
}

abbrev shop : Audit
shop = record {
  id = 11;
  organization_id = 7;
  reference = "A-1";
  title = "Paint shop";
  audit_type = internal;
  status = planned;
  scope = none;
  standard = none;
  lead_auditor_id = none;
  auditee = none;
  planned_date = none;
  start_date = none;
  end_date = none;
  summary = none;
  created_by = 1;
  is_active = true;
}

abbrev created : Db
created = insert audit_table env (session_of env) empty_db shop

creation : Requests.handle env empty_db (Requests.create form) ≡ ok created
unfolding Requests.handle require require_permission user_has_permission has resolve_from_db
    all_permissions Access.require_organization
creation = refl

empty_db-IsWellFormed : IsWellFormed empty_db
empty_db-IsWellFormed = record {
  audits = record { recorded = tt; keys = tt };
  findings = record { recorded = tt; keys = tt };
  items = record { recorded = tt; keys = tt };
  findings_owned = tt;
  items_owned = tt;
  linked = tt;
}

empty_db-IsNewAudit : IsNewAudit env empty_db
empty_db-IsNewAudit = record {
  new_key = record { unused = tt; silent = Shows-nil (record { entity = "audit"; id = 11 }) };
  no_finding = tt;
  no_item = tt;
}

audit_request_scope_example : IsConfined env empty_db created
audit_request_scope_example =
    audit_request_scope env empty_db (Requests.create form) empty_db-IsWellFormed
      empty_db-IsNewAudit creation

abbrev problem : AuditFinding
problem = record {
  id = 12;
  organization_id = 7;
  audit_id = 11;
  checklist_item_id = none;
  title = "No gloves";
  description = none;
  severity = observed;
  status = open_finding;
  owner_id = none;
  due_date = none;
  capa_id = none;
  created_by = 1;
}

abbrev closing : AuditUpdate
closing = record {
  reference = unset;
  title = unset;
  audit_type = unset;
  status = sent (some closed);
  scope = unset;
  standard = unset;
  lead_auditor_id = unset;
  auditee = unset;
  planned_date = unset;
  start_date = unset;
  end_date = unset;
  summary = unset;
}

abbrev idle : Db
idle = record empty_db { audits = shop ∷ [] }

abbrev busy : Db
busy = record idle { findings = problem ∷ [] }

may_update : require audit_update env busy ≡ ok tt
unfolding require require_permission user_has_permission has resolve_from_db all_permissions
may_update = refl

shop_found : get_audit_in_org env busy 11 ≡ ok shop
unfolding get_in_org
shop_found = refl

update_audit_conflict_iff_example :
    (update_audit env busy 11 closing ≡ err (http 409 "Cannot close an audit with open findings"))
    ↔ ((asked_for closing.status ≡ some closed) × Any (IsOpenFor 11) busy.findings)
update_audit_conflict_iff_example =
    update_audit_conflict_iff env busy 11 closing may_update shop_found

abbrev closed_shop : Audit
closed_shop = record shop { status = closed }

closure :
    update_audit env idle 11 closing
    ≡ ok (save audit_table env (session_of env) idle shop closed_shop, closed_shop)
unfolding update_audit Audits.updated Audits.rest_updated Audits.apply_status require
    require_permission user_has_permission has resolve_from_db all_permissions get_in_org
    open_findings_count
closure = refl

update_audit-status_example :
    (a : Audit) × (get_audit_in_org env idle 11 ≡ ok a)
    × ((closed ≡ a.status)
        ⊎ ((asked_for closing.status ≡ some closed)
            × IsResolved
                (save audit_table env (session_of env) idle shop closed_shop).findings
                closed
                11))
update_audit-status_example = update_audit-status env idle 11 closing closure

abbrev question : Items.ChecklistItemCreate
question = record { question = "Gloves?"; clause = none; result = pending; notes = none }

abbrev asked : Db
asked = record created {
  items =
      record {
        id = 11;
        organization_id = 7;
        audit_id = 11;
        clause = none;
        question = "Gloves?";
        result = pending;
        notes = none;
        display_order = 0;
      }
      ∷ [];
}

asking : Requests.handle env created (Requests.ask 11 question) ≡ ok asked
unfolding Requests.handle require require_permission user_has_permission has resolve_from_db
    all_permissions get_in_org insert next_order Items.new_item
asking = refl
