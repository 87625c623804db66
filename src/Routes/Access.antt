-- ===== src/Routes/Access.antt =====
-- What the handlers share: the permission dependency, the caller's organization, and the fields of
-- a partial update (`model_dump(exclude_unset=True)`).
use cron_qms.Prelude.{
  arith, ◌≡◌, ℕ, Bool, true, false, Option, none, some, ◌==◌, Result, ok, err, http, crash,
  or_raise, or_else,
}
use cron_qms.Core.Permissions.{Permission, require_permission}
use cron_qms.Db.{Db, Env}

-- `Depends(require_permission(p))`
unfoldable pub require : Permission → Env → Db → Result (Unit {0})
require p env db = require_permission db.roles env.user p

-- `_require_organization`
unfoldable pub require_organization : Env → Result ℕ
require_organization env =
    or_raise env.user.organization_id (http 400 "User is not assigned to an organization")

pub require_organization-some :
    (env : Env) {o : ℕ} → require_organization env ≡ ok o → env.user.organization_id ≡ some o
unfolding require_organization
require_organization-some env h = ground arith

-- `row.organization_id == current_user.organization_id`
abbrev pub in_org : ℕ → Env → Bool
in_org organization env = elim env.user.organization_id [
  | none ↦ false
  | some own ↦ organization == own
]

-- A field of a partial update: not sent, or sent with a value that may be null.
pub data Field {ℓ} (A : Type ℓ) : Type ℓ where
  unset : Field A
  sent : Option A → Field A

-- `setattr` on a nullable column
abbrev pub assign {ℓ} : {A : Type ℓ} → Field A → Option A → Option A
assign unset old = old
assign (sent v) old = v

-- A column that may not be null: null is refused by the database, or has no `.value`.
abbrev pub assign_required {ℓ} : {A : Type ℓ} → Field A → A → Result A
assign_required unset old = ok old
assign_required (sent none) old = err crash
assign_required (sent (some v)) old = ok v

-- A null for one of the enumerations is not taken, and is no scalar field: it changes nothing.
abbrev pub chosen {ℓ} : {A : Type ℓ} → Field A → A → A
chosen field old = or_else (assign field (some old)) old

abbrev pub asked_for {ℓ} : {A : Type ℓ} → Field A → Option A
asked_for field = assign field none

pub in_org-some : (env : Env) {o : ℕ} → in_org o env ≡ true → env.user.organization_id ≡ some o
in_org-some env h = ground arith
