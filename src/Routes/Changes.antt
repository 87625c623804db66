-- ===== src/Routes/Changes.antt =====
-- app/api/routes/changes.py
pub mod Impacts
pub mod Actions
pub mod Requests
pub mod Effects
pub mod ActionEffects
pub mod ImpactEffects
pub mod Scope
pub mod Closing
pub mod Orders
use cron_qms.Prelude.{
  ℕ, String, Bool, true, false, not, ◌&&◌, Option, none, some, List, [], ◌∷◌, ◌++◌, map, first,
  filter, overwrite, ltb, ◌==◌, or_else, Result, ok, http, raise_if, or_raise, ◌>>=◌, ◌>>◌,
}
use cron_qms.Dates.{Date}
use cron_qms.Models.Change.{
  ChangeType, ChangeStatus, RiskLevel, ImpactArea, ImpactLevel, ActionStatus, ChangeRequest,
  ChangeImpact, ChangeAction, draft, approved, rejected, closed, open_action, actions_of,
  impacts_of, open_actions_count,
}
use cron_qms.Core.Permissions.{
  change_create, change_read, change_update, change_assess, change_approve, change_delete,
  user_has_permission,
}
use cron_qms.Db.{Db, Env, session_of}
use cron_qms.Routes.Scoped.{get_in_org, save, insert, remove}
use cron_qms.Routes.Tables.More.{change_table, action_table}
use cron_qms.Routes.Nested.{get_child, next_order}
use cron_qms.Routes.Access.{
  require, require_organization, Field, assign, assign_required, chosen, asked_for,
}

pub record ChangeRequestCreate : Type 0 where
  pub reference : String
  pub title : String
  pub change_type : ChangeType
  pub description : Option String
  pub reason : Option String
  pub affected_area : Option String
  pub risk_level : RiskLevel
  pub owner_id : Option ℕ
  pub target_date : Option Date

pub record ChangeRequestUpdate : Type 0 where
  pub reference : Field String
  pub title : Field String
  pub change_type : Field ChangeType
  pub status : Field ChangeStatus
  pub description : Field String
  pub reason : Field String
  pub affected_area : Field String
  pub risk_level : Field RiskLevel
  pub owner_id : Field ℕ
  pub target_date : Field Date
  pub implementation_date : Field Date
  pub summary : Field String

-- `_get_change_in_org`
abbrev pub get_change_in_org : Env → Db → ℕ → Result ChangeRequest
get_change_in_org = get_in_org change_table (http 404 "Change request not found")

unfoldable pub new_change : Env → ChangeRequestCreate → ℕ → ChangeRequest
new_change env p organization_id = record {
  id = env.new_id;
  organization_id = organization_id;
  reference = p.reference;
  title = p.title;
  change_type = p.change_type;
  status = draft;
  description = p.description;
  reason = p.reason;
  affected_area = p.affected_area;
  risk_level = p.risk_level;
  owner_id = p.owner_id;
  target_date = p.target_date;
  implementation_date = none;
  summary = none;
  created_by = env.user.id;
  is_active = true;
}

unfoldable pub create_change : Env → Db → ChangeRequestCreate → Result (Db × ChangeRequest)
unfolding new_change
create_change env db p = do
  require change_create env db
  organization_id ← require_organization env
  let change = new_change env p organization_id
  ok (insert change_table env (session_of env) db change, change)

unfoldable pub get_change : Env → Db → ℕ → Result ChangeRequest
get_change env db change_id = do require change_read env db; get_change_in_org env db change_id

-- `_APPROVAL_STATUSES`
abbrev pub is_approval : ChangeStatus → Bool
is_approval approved = true
is_approval rejected = true
is_approval _ = false

abbrev pub is_closing : ChangeStatus → Bool
is_closing closed = true
is_closing _ = false

-- `_apply_status`
unfoldable pub apply_status : Env → Db → ChangeRequest → ChangeStatus → Result ChangeRequest
apply_status env db change new_status = do
  raise_if (is_approval new_status && not (user_has_permission db.roles env.user change_approve))
      (http 403 "You do not have permission to approve or reject changes")
  raise_if (is_closing new_status && ltb 0 (open_actions_count (actions_of change.id db.actions)))
      (http 409 "Cannot close a change with open actions")
  ok (record change { status = new_status })

abbrev pub apply_asked : Env → Db → ChangeRequest → Option ChangeStatus → Result ChangeRequest
apply_asked env db change none = ok change
apply_asked env db change (some new_status) = apply_status env db change new_status

-- `change_type` and `risk_level`
abbrev pub retyped : ChangeRequestUpdate → ChangeRequest → ChangeRequest
retyped p change = record change {
  change_type = chosen p.change_type change.change_type;
  risk_level = chosen p.risk_level change.risk_level;
}

-- `_CHANGE_SCALAR_FIELDS`
unfoldable pub rest_updated : ChangeRequestUpdate → ChangeRequest → Result ChangeRequest
rest_updated p change = do
  reference ← assign_required p.reference change.reference
  title ← assign_required p.title change.title
  ok (record change {
    reference = reference;
    title = title;
    description = assign p.description change.description;
    reason = assign p.reason change.reason;
    affected_area = assign p.affected_area change.affected_area;
    owner_id = assign p.owner_id change.owner_id;
    target_date = assign p.target_date change.target_date;
    implementation_date = assign p.implementation_date change.implementation_date;
    summary = assign p.summary change.summary;
  })

-- The changes that `update_change` makes to the row
unfoldable pub updated : Env → Db → ChangeRequestUpdate → ChangeRequest → Result ChangeRequest
unfolding rest_updated
updated env db p change = do
  moved ← apply_asked env db (retyped p change) (asked_for p.status)
  rest_updated p moved

unfoldable pub update_change : Env → Db → ℕ → ChangeRequestUpdate → Result (Db × ChangeRequest)
update_change env db change_id p = do
  require change_update env db
  change ← get_change_in_org env db change_id
  change' ← updated env db p change
  ok (save change_table env (session_of env) db change change', change')

unfoldable pub delete_change : Env → Db → ℕ → Result Db
delete_change env db change_id = do
  require change_delete env db
  change ← get_change_in_org env db change_id
  ok (save change_table env (session_of env) db change (record change { is_active = false }))
