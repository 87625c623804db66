-- ===== src/Core/Permissions/Resolution.antt =====
-- Which permissions a user is granted.
use mathlib.Core.Bool.{false≢true}
use cron_qms.Prelude.{
  String, ◌≡◌, refl, ap, ◌⊎◌, inl, inr, ◌≢◌, Bool, true, false, ◌&&◌, Option, some, List, [], ◌∷◌,
  str_eq, eq_iff, any, filter, first, arith, Bool-cases,
}
use cron_qms.Models.User.{Role, admin, User, RoleDefinition}
use cron_qms.Core.Permissions.{
  Permission, value, all_permissions, role_permissions, has, role_row, permissions_of,
  resolve_from_db, user_has_permission, event_create, event_read, event_update, event_delete,
  event_change_status, event_approve_closure, event_reopen, event_comment, capa_create, capa_read,
  capa_update, capa_verify, capa_reopen, capa_cancel, document_create, document_read,
  document_update, document_review, document_approve, document_obsolete, document_delete,
  alert_create, alert_read, alert_acknowledge, alert_close, audit_create, audit_read, audit_update,
  audit_conduct, audit_close, audit_delete, training_create, training_read, training_update,
  training_certify, training_delete, change_create, change_read, change_update, change_assess,
  change_approve, change_delete, user_manage, settings_manage, dashboard_view, audit_log_view,
}

-- The permission whose value is a text.
of_value : String → Option Permission
unfolding value all_permissions
of_value s = first (λ p. str_eq (value p) s) all_permissions

of_value-value : (p : Permission) → of_value (value p) ≡ some p
unfolding of_value
of_value-value event_create = refl
of_value-value event_read = refl
of_value-value event_update = refl
of_value-value event_delete = refl
of_value-value event_change_status = refl
of_value-value event_approve_closure = refl
of_value-value event_reopen = refl
of_value-value event_comment = refl
of_value-value capa_create = refl
of_value-value capa_read = refl
of_value-value capa_update = refl
of_value-value capa_verify = refl
of_value-value capa_reopen = refl
of_value-value capa_cancel = refl
of_value-value document_create = refl
of_value-value document_read = refl
of_value-value document_update = refl
of_value-value document_review = refl
of_value-value document_approve = refl
of_value-value document_obsolete = refl
of_value-value document_delete = refl
of_value-value alert_create = refl
of_value-value alert_read = refl
of_value-value alert_acknowledge = refl
of_value-value alert_close = refl
of_value-value audit_create = refl
of_value-value audit_read = refl
of_value-value audit_update = refl
of_value-value audit_conduct = refl
of_value-value audit_close = refl
of_value-value audit_delete = refl
of_value-value training_create = refl
of_value-value training_read = refl
of_value-value training_update = refl
of_value-value training_certify = refl
of_value-value training_delete = refl
of_value-value change_create = refl
of_value-value change_read = refl
of_value-value change_update = refl
of_value-value change_assess = refl
of_value-value change_approve = refl
of_value-value change_delete = refl
of_value-value user_manage = refl
of_value-value settings_manage = refl
of_value-value dashboard_view = refl
of_value-value audit_log_view = refl

-- Two permissions with one value are one.
pub value-injective : (p q : Permission) → value p ≡ value q → p ≡ q
value-injective p q e = cc (of_value-value p, of_value-value q, ap of_value e)

-- Every permission stands in the enumeration.
all_permissions_complete : (p : Permission) → has p all_permissions ≡ true
unfolding has all_permissions
all_permissions_complete event_create = refl
all_permissions_complete _ = refl

-- Membership in a selection from a list of permissions.
has-filter :
    (keep : Permission → Bool) (p : Permission) (ps : List Permission)
    → has p (filter keep ps) ≡ (keep p && has p ps)
unfolding has
has-filter keep p [] = ground arith
has-filter keep p (q ∷ ps) = elim (Bool-cases (str_eq (value q) (value p))) [
  | inl same ↦
      let q_is_p = value-injective q p ((eq_iff (value q) (value p)).0 same) in
      ground (arith, has-filter keep p ps, ap keep q_is_p)
  | inr other ↦ ground (arith, has-filter keep p ps)
]

-- A user with the role named "Admin" has every permission, whatever the tables hold.
pub admin-has_all :
    (roles : List RoleDefinition) (user : User) (p : Permission)
    → user.role ≡ "Admin"
    → user_has_permission roles user p ≡ true
unfolding user_has_permission resolve_from_db
admin-has_all roles user p e = rw e (all_permissions_complete p)

module _ (roles : List RoleDefinition) (user : User) (p : Permission)
    (not_admin : user.role ≢ "Admin") where
  not_admin_test : str_eq user.role "Admin" ≡ false
  not_admin_test = ground (arith, eq_iff user.role "Admin")

  -- For a user whose role is not named "Admin", a row of the roles table is authoritative: it
  -- grants the permissions whose values it lists, and no other.
  pub row-decides :
      (row : RoleDefinition)
      → role_row roles user ≡ some row
      → user_has_permission roles user p ≡ any (λ g. str_eq g (value p)) row.permissions
  unfolding user_has_permission resolve_from_db
  row-decides row e =
      rw (not_admin_test, e)
        (unfold permissions_of in
          rw (has-filter (λ q. any (λ g. str_eq g (value q)) row.permissions) p all_permissions)
            (rw (all_permissions_complete p) (ground arith)))

-- A legacy role whose static grants hold the management of users or of settings is Admin.
pub only_admin_manages :
    (r : Role) (p : Permission)
    → (p ≡ user_manage) ⊎ (p ≡ settings_manage)
    → has p (role_permissions r) ≡ true
    → r ≡ admin
unfolding has role_permissions all_permissions
only_admin_manages admin p q h = refl
only_admin_manages r p (inl e) h = absurd (false≢true (rw e at h))
only_admin_manages r p (inr e) h = absurd (false≢true (rw e at h))
