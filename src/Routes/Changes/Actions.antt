-- ===== src/Routes/Changes/Actions.antt =====
-- The implementation actions in app/api/routes/changes.py.
use cron_qms.Prelude.{
  ℕ, String, ◌&&◌, Option, none, some, first, ◌==◌, Result, ok, http, or_raise, ◌>>=◌, ◌>>◌,
}
use cron_qms.Dates.{Date}
use cron_qms.Models.Change.{ActionStatus, ChangeRequest, ChangeAction, open_action}
use cron_qms.Core.Permissions.{change_assess}
use cron_qms.Db.{Db, Env, session_of}
use cron_qms.Routes.Scoped.{save, insert, remove}
use cron_qms.Routes.Tables.More.{action_table}
use cron_qms.Routes.Nested.{get_child}
use cron_qms.Routes.Access.{require, Field, unset, sent, assign, assign_required, chosen}
use cron_qms.Routes.Changes.{get_change_in_org}

pub record ActionCreate : Type 0 where
  pub title : String
  pub description : Option String
  pub owner_id : Option ℕ
  pub due_date : Option Date

pub record ActionUpdate : Type 0 where
  pub title : Field String
  pub description : Field String
  pub status : Field ActionStatus
  pub owner_id : Field ℕ
  pub due_date : Field Date
  pub capa_id : Field ℕ

-- `_get_action_in_change`
abbrev pub get_action_in_change : Db → ChangeRequest → ℕ → Result ChangeAction
get_action_in_change db change action_id =
    get_child (λ a. a.id) (λ a. a.change_id) (http 404 "Action not found") db.actions change.id
      action_id

unfoldable pub new_action : Env → ChangeRequest → ActionCreate → ChangeAction
new_action env change p = record {
  id = env.new_id;
  organization_id = change.organization_id;
  change_id = change.id;
  title = p.title;
  description = p.description;
  status = open_action;
  owner_id = p.owner_id;
  due_date = p.due_date;
  capa_id = none;
  created_by = env.user.id;
}

unfoldable pub add_action : Env → Db → ℕ → ActionCreate → Result (Db × ChangeAction)
add_action env db change_id p = do
  require change_assess env db
  change ← get_change_in_org env db change_id
  let action = new_action env change p
  ok (insert action_table env (session_of env) db action, action)

-- `_resolve_capa`
unfoldable pub resolve_capa : Db → Option ℕ → ChangeRequest → Result (Option ℕ)
resolve_capa db none change = ok none
resolve_capa db (some capa_id) change = do
  capa ←
      or_raise
        (first
          (λ c. c.id == capa_id && (c.organization_id == change.organization_id && c.is_active))
          db.capas)
        (http 400 "CAPA not found in your organization")
  ok (some capa.id)

unfoldable pub linked : Db → Field ℕ → ChangeRequest → Option ℕ → Result (Option ℕ)
linked db unset change old = ok old
linked db (sent capa_id) change old = resolve_capa db capa_id change

-- The changes that `update_action` makes to the row
unfoldable pub updated_action :
    Db → ActionUpdate → ChangeRequest → ChangeAction → Result ChangeAction
updated_action db p change action = do
  capa_id ← linked db p.capa_id change action.capa_id
  title ← assign_required p.title action.title
  ok (record action {
    title = title;
    description = assign p.description action.description;
    status = chosen p.status action.status;
    owner_id = assign p.owner_id action.owner_id;
    due_date = assign p.due_date action.due_date;
    capa_id = capa_id;
  })

unfoldable pub update_action : Env → Db → ℕ → ℕ → ActionUpdate → Result (Db × ChangeAction)
update_action env db change_id action_id p = do
  require change_assess env db
  change ← get_change_in_org env db change_id
  action ← get_action_in_change db change action_id
  action' ← updated_action db p change action
  ok (save action_table env (session_of env) db action action', action')

unfoldable pub delete_action : Env → Db → ℕ → ℕ → Result Db
delete_action env db change_id action_id = do
  require change_assess env db
  change ← get_change_in_org env db change_id
  action ← get_action_in_change db change action_id
  ok (remove action_table env (session_of env) db action)
