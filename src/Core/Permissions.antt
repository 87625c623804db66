-- ===== src/Core/Permissions.antt =====
-- app/core/permissions.py: the permissions, the grants of the legacy roles, and their resolution
-- from the `roles` tables. A Python set is a list here; only membership is asked.
pub mod Resolution
use cron_qms.Prelude.{
  ℕ, String, Bool, true, false, not, Option, none, some, List, [], ◌∷◌, str_eq, any, filter, first,
  ◌&&◌, ◌==◌, if◌then◌else◌, Result, ok, err, http, raise_if,
}
use cron_qms.Models.User.{
  Role, admin, quality_manager, investigator, approver, viewer, role_value, User, RoleDefinition,
}

pub data Permission : Type 0 where
  event_create event_read event_update event_delete event_change_status : Permission
  event_approve_closure event_reopen event_comment capa_create capa_read : Permission
  capa_update capa_verify capa_reopen capa_cancel document_create document_read : Permission
  document_update document_review document_approve document_obsolete : Permission
  document_delete alert_create alert_read alert_acknowledge alert_close : Permission
  audit_create audit_read audit_update audit_conduct audit_close audit_delete : Permission
  training_create training_read training_update training_certify training_delete : Permission
  change_create change_read change_update change_assess change_approve : Permission
  change_delete user_manage settings_manage dashboard_view audit_log_view : Permission

-- `permission.value`
unfoldable pub value : Permission → String
value event_create = "event:create"
value event_read = "event:read"
value event_update = "event:update"
value event_delete = "event:delete"
value event_change_status = "event:change_status"
value event_approve_closure = "event:approve_closure"
value event_reopen = "event:reopen"
value event_comment = "event:comment"
value capa_create = "capa:create"
value capa_read = "capa:read"
value capa_update = "capa:update"
value capa_verify = "capa:verify"
value capa_reopen = "capa:reopen"
value capa_cancel = "capa:cancel"
value document_create = "document:create"
value document_read = "document:read"
value document_update = "document:update"
value document_review = "document:review"
value document_approve = "document:approve"
value document_obsolete = "document:obsolete"
value document_delete = "document:delete"
value alert_create = "alert:create"
value alert_read = "alert:read"
value alert_acknowledge = "alert:acknowledge"
value alert_close = "alert:close"
value audit_create = "audit:create"
value audit_read = "audit:read"
value audit_update = "audit:update"
value audit_conduct = "audit:conduct"
value audit_close = "audit:close"
value audit_delete = "audit:delete"
value training_create = "training:create"
value training_read = "training:read"
value training_update = "training:update"
value training_certify = "training:certify"
value training_delete = "training:delete"
value change_create = "change:create"
value change_read = "change:read"
value change_update = "change:update"
value change_assess = "change:assess"
value change_approve = "change:approve"
value change_delete = "change:delete"
value user_manage = "user:manage"
value settings_manage = "settings:manage"
value dashboard_view = "dashboard:view"
value audit_log_view = "audit_log:view"

-- `set(Permission)`
unfoldable pub all_permissions : List Permission
all_permissions =
    event_create ∷ event_read ∷ event_update ∷ event_delete ∷ event_change_status
    ∷ event_approve_closure ∷ event_reopen ∷ event_comment ∷ capa_create ∷ capa_read ∷ capa_update
    ∷ capa_verify ∷ capa_reopen ∷ capa_cancel ∷ document_create ∷ document_read ∷ document_update
    ∷ document_review ∷ document_approve ∷ document_obsolete ∷ document_delete ∷ alert_create
    ∷ alert_read ∷ alert_acknowledge ∷ alert_close ∷ audit_create ∷ audit_read ∷ audit_update
    ∷ audit_conduct ∷ audit_close ∷ audit_delete ∷ training_create ∷ training_read ∷ training_update
    ∷ training_certify ∷ training_delete ∷ change_create ∷ change_read ∷ change_update
    ∷ change_assess ∷ change_approve ∷ change_delete ∷ user_manage ∷ settings_manage
    ∷ dashboard_view ∷ audit_log_view ∷ []

-- `ROLE_PERMISSIONS`
unfoldable pub role_permissions : Role → List Permission
role_permissions admin = all_permissions
role_permissions quality_manager =
    event_create ∷ event_read ∷ event_update ∷ event_delete ∷ event_change_status
    ∷ event_approve_closure ∷ event_reopen ∷ event_comment ∷ capa_create ∷ capa_read ∷ capa_update
    ∷ capa_verify ∷ capa_reopen ∷ capa_cancel ∷ document_create ∷ document_read ∷ document_update
    ∷ document_review ∷ document_approve ∷ document_obsolete ∷ document_delete ∷ alert_create
    ∷ alert_read ∷ alert_acknowledge ∷ alert_close ∷ audit_create ∷ audit_read ∷ audit_update
    ∷ audit_conduct ∷ audit_close ∷ audit_delete ∷ training_create ∷ training_read ∷ training_update
    ∷ training_certify ∷ training_delete ∷ change_create ∷ change_read ∷ change_update
    ∷ change_assess ∷ change_approve ∷ change_delete ∷ dashboard_view ∷ audit_log_view ∷ []
role_permissions investigator =
    event_create ∷ event_read ∷ event_update ∷ event_change_status ∷ event_comment ∷ capa_create
    ∷ capa_read ∷ capa_update ∷ document_create ∷ document_read ∷ document_update ∷ alert_create
    ∷ alert_read ∷ alert_acknowledge ∷ audit_create ∷ audit_read ∷ audit_update ∷ audit_conduct
    ∷ training_create ∷ training_read ∷ training_update ∷ training_certify ∷ change_create
    ∷ change_read ∷ change_update ∷ change_assess ∷ dashboard_view ∷ audit_log_view ∷ []
role_permissions approver =
    event_read ∷ event_change_status ∷ event_approve_closure ∷ event_comment ∷ capa_read
    ∷ capa_verify ∷ document_read ∷ document_review ∷ document_approve ∷ document_obsolete
    ∷ alert_read ∷ alert_acknowledge ∷ audit_read ∷ audit_close ∷ training_read ∷ training_certify
    ∷ change_read ∷ change_approve ∷ dashboard_view ∷ audit_log_view ∷ []
role_permissions viewer =
    event_read ∷ capa_read ∷ document_read ∷ alert_read ∷ audit_read ∷ training_read ∷ change_read
    ∷ dashboard_view ∷ audit_log_view ∷ []

-- `permission in granted`
unfoldable pub has : Permission → List Permission → Bool
unfolding value
has p granted = any (λ q. str_eq (value q) (value p)) granted

-- `_coerce_role`
unfoldable pub coerce_role : String → Option Role
coerce_role raw =
    first (λ r. str_eq (role_value r) raw)
      (admin ∷ quality_manager ∷ investigator ∷ approver ∷ viewer ∷ [])

abbrev pub is_of : Option ℕ → ℕ → Bool
is_of none id = false
is_of (some o) id = o == id

-- The role row of a user: `organization_id` and `name` are the user's.
unfoldable pub role_row : List RoleDefinition → User → Option RoleDefinition
role_row roles user =
    first (λ r. is_of user.organization_id r.organization_id && str_eq r.name user.role) roles

-- `{p for p in Permission if p.value in granted}`
unfoldable pub permissions_of : List String → List Permission
unfolding value
permissions_of granted = filter (λ p. any (λ g. str_eq g (value p)) granted) all_permissions

-- `_resolve_from_db`
unfoldable pub resolve_from_db : List RoleDefinition → User → List Permission
unfolding role_row permissions_of coerce_role role_permissions
resolve_from_db roles user =
    if str_eq user.role (role_value admin) then all_permissions else elim (role_row roles user) [
      | some row ↦ permissions_of row.permissions
      | none ↦ elim (coerce_role user.role) [ some legacy ↦ role_permissions legacy | none ↦ [] ]
    ]

-- `user_has_permission`
unfoldable pub user_has_permission : List RoleDefinition → User → Permission → Bool
user_has_permission roles user p = has p (resolve_from_db roles user)

-- The dependency that `require_permission` builds
unfoldable pub require_permission : List RoleDefinition → User → Permission → Result (Unit {0})
require_permission roles user p =
    raise_if (not (user_has_permission roles user p))
      (http 403 "Insufficient permissions for this action")
