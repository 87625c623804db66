-- ===== src/Tests/EventTests.antt =====
-- The events of a small organization.
use cron_qms.Prelude.{
  ℕ, ◌≡◌, ◌≢◌, ◌↔◌, refl, true, false, none, some, List, [], ◌∷◌, ◌++◌, ok, All, Option, run,
  visits,
}
use cron_qms.Dates.{date}
use cron_qms.Models.Event.{Event, opened, in_progress, resolved, closed, high, defect}
use cron_qms.Models.History.{HistoryRow}
use cron_qms.Core.Permissions.{
  require_permission, has, all_permissions, resolve_from_db, user_has_permission,
}
use cron_qms.Core.Audit.Replay.{Shows-nil}
use cron_qms.Db.{session_of}
use cron_qms.Services.EventWorkflow.{apply_status_transition, approve_closure}
use cron_qms.Services.EventWorkflow.Rules.{◌⟶◌, apply_status_transition_iff, approve_closure_iff}
use cron_qms.Services.EventWorkflow.Lifecycle
use cron_qms.Services.EventWorkflow.Lifecycle.{
  Action, advance, close, step, is_in_progress, is_resolved, IsIndependent, run-IsIndependent,
  closed_after_investigation,
}
use cron_qms.Routes.Access.{require}
use cron_qms.Routes.Access
use cron_qms.Routes.Scoped.{get_in_org, save, insert}
use cron_qms.Routes.Scoped.Writes.{foreign}
use cron_qms.Routes.Scoped.Trail.{IsBy, IsAudited, IsNewKey}
use cron_qms.Routes.Tables.{event_table}
use cron_qms.Routes.Events
use cron_qms.Routes.Events.{delete}
use cron_qms.Routes.Events.Isolation.{SameOthers, handle-isolated}
use cron_qms.Routes.Events.Trail.{history_appended, handle-IsAudited}
use cron_qms.Tests.Fixtures.{boss, scratch, empty_db, one_event, env}

abbrev solved : Event
solved = record scratch { status = resolved }

apply_status_transition-iff_example :
    (apply_status_transition scratch in_progress ≡ ok (record scratch { status = in_progress })) ↔ (
      (opened ⟶ in_progress)
      × (record scratch { status = in_progress } ≡ record scratch { status = in_progress }))
apply_status_transition-iff_example =
    apply_status_transition_iff scratch in_progress (record scratch { status = in_progress })

approve_closure-iff_example :
    (approve_closure solved boss 5
      ≡ ok (record solved { status = closed; closed_by = some 1; closed_at = some 5 }))
    ↔ ((resolved ≡ resolved)
        × (◌≢◌ {A = ℕ} 1 2)
        × (◌≢◌ {A = Option ℕ} (some 3) (some 1))
        × (record solved { status = closed; closed_by = some 1; closed_at = some 5 }
            ≡ record solved { status = closed; closed_by = some 1; closed_at = some 5 }))
approve_closure-iff_example =
    approve_closure_iff solved boss 5
      (record solved { status = closed; closed_by = some 1; closed_at = some 5 })

abbrev closure : List Action
closure = advance in_progress ∷ advance resolved ∷ close boss 9 ∷ []

scratch-IsIndependent : IsIndependent scratch
scratch-IsIndependent = record {
  named = λ h n. cc;
  not_reporter = λ u h. cc;
  not_investigator = λ u h. cc;
  cleared = λ _. (refl, refl);
}

run-IsIndependent_example : IsIndependent (run step scratch closure)
run-IsIndependent_example = run-IsIndependent scratch closure scratch-IsIndependent

closure_closes : (run step scratch closure).status ≡ closed
unfolding run step Lifecycle.perform
closure_closes = refl

closed_after_investigation_example :
    (visits step is_in_progress scratch closure ≡ true)
    × (visits step is_resolved scratch closure ≡ true)
closed_after_investigation_example = closed_after_investigation scratch closure refl closure_closes

-- The event after its deletion, and the database.
abbrev deleted : Event
deleted = record scratch { is_active = false }

deletion :
    Events.handle env one_event (delete 10)
    ≡ ok (save event_table env (session_of env) one_event scratch deleted, deleted)
unfolding Events.handle get_in_org require require_permission user_has_permission has
    resolve_from_db all_permissions
deletion = refl

handle-isolated_example :
    (foreign event_table env
        (save event_table env (session_of env) one_event scratch deleted).events
      ≡ foreign event_table env (scratch ∷ []))
    × SameOthers one_event (save event_table env (session_of env) one_event scratch deleted)
handle-isolated_example = handle-isolated env one_event (delete 10) deletion

history_appended_example :
    (rows : List HistoryRow) × ((save event_table env
        (session_of env)
        one_event
        scratch
        deleted).history
      ≡ [] ++ rows)
    × All (IsBy event_table env deleted) rows
history_appended_example = history_appended env one_event (delete 10) deletion

-- An empty database, into which an event is reported.
abbrev report : Events.EventCreate
report = record {
  title = "Scratch";
  description = none;
  event_type = defect;
  priority = high;
  assigned_to = none;
  site_id = none;
  target_close_date = some (date 2024 3 1);
  product_part_number = none;
  lot_batch = none;
  supplier = none;
  work_order = none;
  machine = none;
}

abbrev reported : Event
reported = record scratch {
  id = 11;
  target_close_date = some (date 2024 3 1);
  assigned_to = none;
  reported_by = 1;
  created_at = some 1000;
}

creation :
    Events.handle env empty_db (Events.create report)
    ≡ ok (insert event_table env (session_of env) empty_db reported, reported)
unfolding Events.handle require require_permission user_has_permission has resolve_from_db
    all_permissions Access.require_organization Events.target_date
creation = refl

empty_db-IsNewKey : IsNewKey event_table env empty_db
empty_db-IsNewKey = record {
  unused = tt;
  silent = Shows-nil (record { entity = "event"; id = 11 });
}

empty_db-IsAudited : IsAudited event_table empty_db
empty_db-IsAudited = record { recorded = tt; keys = tt }

handle-IsAudited_example :
    IsAudited event_table (insert event_table env (session_of env) empty_db reported)
handle-IsAudited_example =
    handle-IsAudited env empty_db (Events.create report) empty_db-IsNewKey empty_db-IsAudited
      creation
