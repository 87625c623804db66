-- ===== src/Tests/CapaTests.antt =====
-- The CAPAs of a small organization.
use cron_qms.Prelude.{
  ◌⊎◌, ℕ, ◌≡◌, ◌≢◌, ◌↔◌, refl, true, none, some, List, [], ◌∷◌, ◌++◌, ok, arith, Result, All,
  Option, run, visits,
}
use cron_qms.Dates.{date}
use cron_qms.Text.{strip}
use cron_qms.Models.Capa.{
  ineffective, failed_effectiveness, Capa, draft, investigation, action_plan, implementation,
  effectiveness_check, closed, effective, pending,
}
use cron_qms.Models.History.{HistoryRow}
use cron_qms.Core.Audit.{Session}
use cron_qms.Core.Audit.Replay.{Shows-nil}
use cron_qms.Core.Permissions.{
  require_permission, has, all_permissions, resolve_from_db, user_has_permission,
}
use cron_qms.Db.{Db, session_of}
use cron_qms.Services.CapaWorkflow.{
  apply_status_transition, verify_effectiveness, gate, allowed, blank,
}
use cron_qms.Services.CapaWorkflow.Rules.{Move, capa_transition_iff, verify_effectiveness_iff}
use cron_qms.Services.CapaWorkflow.Lifecycle
use cron_qms.Services.CapaWorkflow.Lifecycle.{
  Action, advance, verify, step, is_judged, is_investigation, is_action_plan, is_implementation,
  is_check, judged_after_stages,
}
use cron_qms.Routes.Access.{require}
use cron_qms.Routes.Access
use cron_qms.Routes.Scoped.{get_in_org, save, insert}
use cron_qms.Routes.Scoped.Writes.{foreign}
use cron_qms.Routes.Scoped.Trail.{IsBy, IsAudited, IsNewKey}
use cron_qms.Routes.Tables.{capa_table}
use cron_qms.Routes.Capas
use cron_qms.Routes.Capas.Scope.{capa_request_scope}
use cron_qms.Routes.Capas.Verification.{IsVerified, handle-IsVerified}
use cron_qms.Tests.Fixtures.{boss, empty_db, env, session}

abbrev leak : Capa
leak = record {
  id = 20;
  organization_id = 7;
  title = "Leak";
  status = draft;
  initiating_cause = some "A leaking seal";
  containment_actions = none;
  root_cause = some "Worn out";
  root_cause_category = none;
  rca_method = none;
  corrective_action = some "Replace it";
  preventive_action = none;
  owner_id = some 3;
  due_date = some (date 2024 6 1);
  verification_date = none;
  verification_outcome = pending;
  verified_by = none;
  created_by = 2;
  is_active = true;
  event_ids = [];
}

capa_transition-iff_example :
    (apply_status_transition leak investigation ≡ ok (record leak { status = investigation })) ↔ (
      Move leak investigation
      × (record leak { status = investigation } ≡ record leak { status = investigation }))
capa_transition-iff_example =
    capa_transition_iff leak investigation (record leak { status = investigation })

abbrev checked : Capa
checked = record leak { status = effectiveness_check }

abbrev verified : Capa
verified = record leak {
  status = closed;
  verification_outcome = effective;
  verification_date = some (date 2024 1 31);
  verified_by = some 1;
}

verify_effectiveness-iff_example :
    ◌≡◌ {A = Result (Session × Capa)}
      (verify_effectiveness session checked boss effective none none (date 2024 1 31))
      (ok (session, verified))
    ↔ ((effectiveness_check ≡ effectiveness_check)
        × (◌≢◌ {A = Option ℕ} (some 3) (some 1))
        × (session ≡ record session { reason = none })
        × (((effective ≡ effective)
              × (verified ≡ record checked {
                status = closed;
                verification_outcome = effective;
                verification_date = some (date 2024 1 31);
                verified_by = some 1;
              }))
            ⊎ ((effective ≡ ineffective)
                × (verified ≡ record checked {
                  status = failed_effectiveness;
                  verification_outcome = ineffective;
                  verification_date = some (date 2024 1 31);
                  verified_by = some 1;
                }))))
verify_effectiveness-iff_example =
    verify_effectiveness_iff session checked boss effective none none (date 2024 1 31) session
      verified

abbrev stages : List Action
stages =
    advance investigation
    ∷ advance action_plan
    ∷ advance implementation
    ∷ advance effectiveness_check
    ∷ verify boss effective none none (date 2024 1 31)
    ∷ []

leak-is_judged : is_judged (run (step session) leak stages) ≡ true
unfolding run step Lifecycle.perform gate allowed blank strip
leak-is_judged = refl

judged_after_stages_example :
    (visits (step session) is_investigation leak stages ≡ true)
    × (visits (step session) is_action_plan leak stages ≡ true)
    × (visits (step session) is_implementation leak stages ≡ true)
    × (visits (step session) is_check leak stages ≡ true)
judged_after_stages_example = judged_after_stages session leak stages refl leak-is_judged

abbrev one_capa : Db
one_capa = record empty_db { capas = leak ∷ [] }

abbrev moved : Capa
moved = record leak { status = investigation }

moving :
    Capas.handle env one_capa (Capas.patch_status 20 investigation)
    ≡ ok (save capa_table env (session_of env) one_capa leak moved, moved)
unfolding Capas.handle get_in_org require require_permission user_has_permission has resolve_from_db
    all_permissions apply_status_transition gate allowed blank strip
moving = refl

leak-IsVerified : IsVerified leak
leak-IsVerified = record {
  closed_is_effective = λ h. cc;
  failed_is_ineffective = λ h. cc;
  has_evidence = λ h. ground arith;
  open_is_pending = λ h k. (refl, refl, refl);
}

handle-IsVerified_example :
    All IsVerified (save capa_table env (session_of env) one_capa leak moved).capas
handle-IsVerified_example =
    handle-IsVerified env one_capa (Capas.patch_status 20 investigation) moving
      (leak-IsVerified, tt)

abbrev leak_form : Capas.CapaCreate
leak_form = record {
  title = "Leak";
  initiating_cause = some "A leaking seal";
  containment_actions = none;
  root_cause = some "Worn out";
  root_cause_category = none;
  rca_method = none;
  corrective_action = some "Replace it";
  preventive_action = none;
  owner_id = some 3;
  due_date = some (date 2024 6 1);
  event_ids = [];
}

abbrev opened : Capa
opened = record leak { id = 11; created_by = 1 }

opening :
    Capas.handle env empty_db (Capas.create leak_form)
    ≡ ok (insert capa_table env (session_of env) empty_db opened, opened)
unfolding Capas.handle require require_permission user_has_permission has resolve_from_db
    all_permissions Access.require_organization Capas.resolve_events
opening = refl

empty_db-IsNewCapa : IsNewKey capa_table env empty_db
empty_db-IsNewCapa = record {
  unused = tt;
  silent = Shows-nil (record { entity = "capa"; id = 11 });
}

empty_db-IsAudited : IsAudited capa_table empty_db
empty_db-IsAudited = record { recorded = tt; keys = tt }

capa_request_scope_example :
    (foreign capa_table env (insert capa_table env (session_of env) empty_db opened).capas
      ≡ foreign capa_table env [])
    × IsAudited capa_table (insert capa_table env (session_of env) empty_db opened)
    × ((rows : List HistoryRow) × ((insert capa_table env (session_of env) empty_db opened).history
          ≡ [] ++ rows)
        × All (IsBy capa_table env opened) rows)
capa_request_scope_example =
    capa_request_scope env empty_db (Capas.create leak_form) empty_db-IsNewCapa empty_db-IsAudited
      opening
