-- ===== src/Services/OrgSettings.antt =====
-- app/services/org_settings.py
pub mod Rules
use cron_qms.Prelude.{
  ℕ, String, Bool, false, ◌&&◌, Option, none, some, List, [], ◌∷◌, ◌++◌, first, overwrite, ◌==◌,
  str_eq, if◌then◌else◌,
}
use cron_qms.Text.{positive_int}
use cron_qms.Models.Organization.{OrgSetting}

abbrev pub key_allow_standalone : String
key_allow_standalone = "alerts.allow_standalone"

abbrev pub key_default_expiry_days : String
key_default_expiry_days = "alerts.default_expiry_days"

abbrev pub is_setting : ℕ → String → OrgSetting → Bool
is_setting organization_id key row = row.organization_id == organization_id && str_eq row.key key

-- `row.value if row is not None else default`
abbrev pub value_or : Option OrgSetting → Option String → Option String
value_or (some row) default = row.value
value_or none default = default

-- `get_setting`
unfoldable pub get_setting : List OrgSetting → ℕ → String → Option String → Option String
get_setting rows organization_id key default =
    value_or (first (is_setting organization_id key) rows) default

-- The two branches of `set_setting`
abbrev pub upsert : Option OrgSetting → List OrgSetting → ℕ → String → String → List OrgSetting
upsert none rows organization_id key value =
    rows ++ record { organization_id = organization_id; key = key; value = some value } ∷ []
upsert (some row) rows organization_id key value =
    overwrite (is_setting organization_id key) (record row { value = some value }) rows

-- `set_setting`
unfoldable pub set_setting : List OrgSetting → ℕ → String → String → List OrgSetting
set_setting rows organization_id key value =
    upsert (first (is_setting organization_id key) rows) rows organization_id key value

abbrev is_true : Option String → Bool
is_true none = false
is_true (some raw) = str_eq raw "true"

-- `standalone_alerts_enabled`
unfoldable pub standalone_alerts_enabled : List OrgSetting → ℕ → Bool
unfolding get_setting
standalone_alerts_enabled rows organization_id =
    is_true (get_setting rows organization_id key_allow_standalone (some "false"))

-- `default_expiry_days`: a value that is no positive number counts as the default.
unfoldable pub default_expiry_days : List OrgSetting → ℕ → ℕ
unfolding get_setting positive_int
default_expiry_days rows organization_id =
    days (get_setting rows organization_id key_default_expiry_days (some "14"))
  where
    days : Option String → ℕ
    days none = 14
    days (some raw) = if positive_int raw == 0 then 14 else positive_int raw
