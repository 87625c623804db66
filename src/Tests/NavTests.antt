-- ===== src/Tests/NavTests.antt =====
-- The sidebar and the options of an organization.
use cron_qms.Prelude.{
  String, ◌≡◌, refl, true, Option, none, some, List, [], ◌∷◌, ◌==◌, ok, All, filter, if◌then◌else◌,
}
use cron_qms.Text.{strip, lstrip, rstrip, is_space}
use cron_qms.Models.Organization.{OrgSetting}
use cron_qms.Services.OrgSettings.{get_setting, set_setting}
use cron_qms.Services.OrgSettings.Rules.{same_option, get_setting-set_setting}
use cron_qms.Services.NavConfig.{
  Layout, module_of, known_modules, sanitize_groups, sanitize, layout_json, get_layout, set_layout,
  build_nav,
}
use cron_qms.Services.NavConfig.JsonValues.{Json, null, text, array, object, nil, cons, end, member}
use cron_qms.Services.NavConfig.RoundTrip.{get_layout-set_layout}
use cron_qms.Services.NavConfig.Visible.{nav_keys, allowed, layout_keys, is_filled, build_nav_lem}

abbrev rows : List OrgSetting
rows = record { organization_id = 7; key = "alerts.allow_standalone"; value = some "true" } ∷ []

get_setting-set_setting_example :
    get_setting (set_setting rows 7 "nav.layout" "x") 7 "alerts.allow_standalone" none ≡ (
      if same_option 7 "nav.layout" 7 "alerts.allow_standalone"
      then some "x"
      else get_setting rows 7 "alerts.allow_standalone" none)
get_setting-set_setting_example =
    get_setting-set_setting rows 7 "nav.layout" "x" 7 "alerts.allow_standalone" none

-- {"groups": [{"title": " Shop ", "modules": ["capa", "lunch"]}, 5]}
abbrev posted : Json
posted = object (
    member "groups"
      (array (
        cons
          (object (
            member "title" (text " Shop ")
              (member "modules" (array (cons (text "capa") (cons (text "lunch") nil))) end)))
          (cons null nil)))
      end)

abbrev shop : Layout
shop = record { title = "Shop"; modules = "capa" ∷ [] } ∷ []

abbrev no_text : Json → String
no_text j = ""

abbrev written : Json → String
written j = "saved"

abbrev read : String → Option Json
read s = some (layout_json shop)

posted_sanitized : sanitize no_text posted ≡ ok shop
unfolding sanitize sanitize_groups known_modules module_of strip lstrip rstrip is_space
posted_sanitized = refl

get_layout-set_layout_example :
    (rows' : List OrgSetting) × (set_layout no_text written rows 7 posted ≡ ok rows')
    × (get_layout no_text read rows' 8
        ≡ (if 7 == 8 then ok shop else get_layout no_text read rows 8))
get_layout-set_layout_example =
    get_layout-set_layout no_text written read rows 7 posted 8 posted_sanitized refl refl

build_nav_lem_example :
    (nav_keys (build_nav shop ("capa:read" ∷ []))
      ≡ filter (allowed ("capa:read" ∷ [])) (layout_keys shop))
    × All (λ g. is_filled g.modules ≡ true) (build_nav shop ("capa:read" ∷ []))
build_nav_lem_example = build_nav_lem shop ("capa:read" ∷ [])
