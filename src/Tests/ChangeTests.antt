-- ===== src/Tests/ChangeTests.antt =====
-- Change control on a small database.
use cron_qms.Prelude.{Any, ◌≡◌, ◌↔◌, ◌⊎◌, refl, true, none, some, [], ◌∷◌, ok, err, http}
use cron_qms.Models.Change.{
  ChangeRequest, ChangeAction, process, draft, closed, low_risk, high_risk, open_action, quality,
  no_impact, open_actions_count,
}
use cron_qms.Core.Audit.Replay.{Shows-nil}
use cron_qms.Core.Permissions.{
  require_permission, has, all_permissions, resolve_from_db, user_has_permission, change_update,
}
use cron_qms.Db.{Db, session_of}
use cron_qms.Routes.Access
use cron_qms.Routes.Access.{require, Field, unset, sent, asked_for}
use cron_qms.Routes.Scoped.{get_in_org, save, insert}
use cron_qms.Routes.Tables.More.{change_table}
use cron_qms.Routes.Nested.{next_order}
use cron_qms.Routes.Changes
use cron_qms.Routes.Changes.{ChangeRequestUpdate, get_change_in_org, update_change}
use cron_qms.Routes.Changes.Impacts
use cron_qms.Routes.Changes.Closing.{
  IsOpenFor, IsGated, update_change-status, update_change_conflict_iff,
}
use cron_qms.Routes.Changes.Orders.{DistinctOrders, handle-DistinctOrders}
use cron_qms.Routes.Changes.Requests
use cron_qms.Routes.Changes.Scope.{IsWellFormed, IsNewChange, IsConfined, change_request_scope}
use cron_qms.Tests.Fixtures.{env, empty_db}

abbrev form : Changes.ChangeRequestCreate
form = record {
  reference = "CR-1";
  title = "New seal";
  change_type = process;
  description = none;
  reason = none;
  affected_area = none;
  risk_level = low_risk;
  owner_id = none;
  target_date = none;
}

abbrev seal : ChangeRequest
seal = record {
  id = 11;
  organization_id = 7;
  reference = "CR-1";
  title = "New seal";
  change_type = process;
  status = draft;
  description = none;
  reason = none;
  affected_area = none;
  risk_level = low_risk;
  owner_id = none;
  target_date = none;
  implementation_date = none;
  summary = none;
  created_by = 1;
  is_active = true;
}

abbrev created : Db
created = insert change_table env (session_of env) empty_db seal

creation : Requests.handle env empty_db (Requests.create form) ≡ ok created
unfolding Requests.handle require require_permission user_has_permission has resolve_from_db
    all_permissions Access.require_organization
creation = refl

empty_db-IsWellFormed : IsWellFormed empty_db
empty_db-IsWellFormed = record {
  changes = record { recorded = tt; keys = tt };
  actions = record { recorded = tt; keys = tt };
  impacts = record { recorded = tt; keys = tt };
  actions_owned = tt;
  impacts_owned = tt;
}

empty_db-IsNewChange : IsNewChange env empty_db
empty_db-IsNewChange = record {
  new_key = record {
    unused = tt;
    silent = Shows-nil (record { entity = "change_request"; id = 11 });
  };
  no_action = tt;
  no_impact = tt;
}

change_request_scope_example : IsConfined env empty_db created
change_request_scope_example =
    change_request_scope env empty_db (Requests.create form) empty_db-IsWellFormed
      empty_db-IsNewChange creation

abbrev assessment : Impacts.ImpactCreate
assessment = record {
  area = quality;
  impact_level = no_impact;
  description = none;
  mitigation = none;
}

abbrev assessed : Db
assessed = record created {
  impacts =
      record {
        id = 11;
        organization_id = 7;
        change_id = 11;
        area = quality;
        impact_level = no_impact;
        description = none;
        mitigation = none;
        display_order = 0;
      }
      ∷ [];
}

assessing : Requests.handle env created (Requests.assess 11 assessment) ≡ ok assessed
unfolding Requests.handle require require_permission user_has_permission has resolve_from_db
    all_permissions get_in_org insert next_order Impacts.new_impact
assessing = refl

created-IsWellFormed : IsWellFormed created
created-IsWellFormed =
    (change_request_scope env empty_db (Requests.create form) empty_db-IsWellFormed
      empty_db-IsNewChange creation).well_formed

created-DistinctOrders : DistinctOrders created.impacts
unfolding insert
created-DistinctOrders = tt

handle-DistinctOrders_example : DistinctOrders assessed.impacts
handle-DistinctOrders_example =
    handle-DistinctOrders env created (Requests.assess 11 assessment) created-IsWellFormed
      created-DistinctOrders assessing

abbrev task : ChangeAction
task = record {
  id = 12;
  organization_id = 7;
  change_id = 11;
  title = "Order seals";
  description = none;
  status = open_action;
  owner_id = none;
  due_date = none;
  capa_id = none;
  created_by = 1;
}

abbrev closing : ChangeRequestUpdate
closing = record {
  reference = unset;
  title = unset;
  change_type = unset;
  status = sent (some closed);
  description = unset;
  reason = unset;
  affected_area = unset;
  risk_level = sent (some high_risk);
  owner_id = unset;
  target_date = unset;
  implementation_date = unset;
  summary = unset;
}

abbrev idle : Db
idle = record empty_db { changes = seal ∷ [] }

abbrev busy : Db
busy = record idle { actions = task ∷ [] }

may_update : require change_update env busy ≡ ok tt
unfolding require require_permission user_has_permission has resolve_from_db all_permissions
may_update = refl

seal_found : get_change_in_org env busy 11 ≡ ok seal
unfolding get_in_org
seal_found = refl

update_change_conflict_iff_example :
    (update_change env busy 11 closing ≡ err (http 409 "Cannot close a change with open actions"))
    ↔ ((asked_for closing.status ≡ some closed) × Any (IsOpenFor 11) busy.actions)
update_change_conflict_iff_example =
    update_change_conflict_iff env busy 11 closing may_update seal_found

abbrev closed_seal : ChangeRequest
closed_seal = record seal { status = closed; risk_level = high_risk }

closure :
    update_change env idle 11 closing
    ≡ ok (save change_table env (session_of env) idle seal closed_seal, closed_seal)
unfolding update_change Changes.updated Changes.rest_updated Changes.apply_status require
    require_permission user_has_permission has resolve_from_db all_permissions get_in_org
    open_actions_count
closure = refl

update_change-status_example :
    (c : ChangeRequest) × (get_change_in_org env idle 11 ≡ ok c)
    × ((closed ≡ c.status)
        ⊎ ((asked_for closing.status ≡ some closed)
            × IsGated env (save change_table env (session_of env) idle seal closed_seal) closed 11))
update_change-status_example = update_change-status env idle 11 closing closure
