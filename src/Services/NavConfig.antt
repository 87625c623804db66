-- ===== src/Services/NavConfig.antt =====
-- app/services/nav_config.py. JSON texts are read and written by the arguments `loads` and `dumps`
-- (json.loads and json.dumps); `str_of` is `str` of a JSON value that is no text.
pub mod JsonValues
pub mod Trimmed
pub mod RoundTrip
pub mod Visible
use cron_qms.Prelude.{
  ℕ, String, Bool, true, false, Option, none, some, List, [], ◌∷◌, map, any, filter, first, str_eq,
  if◌then◌else◌, Result, ok, err, crash, ◌>>=◌, is_none, not,
}
use cron_qms.Text.{strip, is_empty}
use cron_qms.Models.Organization.{OrgSetting}
use cron_qms.Services.OrgSettings.{get_setting, set_setting}
use cron_qms.Services.NavConfig.JsonValues.{
  Json, null, truth, number, text, array, object, Jsons, nil, cons, Members, end, member, field,
  to_list, characters, keys, is_falsy,
}

pub record Module : Type 0 where
  pub key : String
  pub label : String
  pub href : String
  pub permission : String

abbrev entry : String → String → String → String → Module
entry key label href permission = record {
  key = key;
  label = label;
  href = href;
  permission = permission;
}

-- `MODULES`
abbrev pub modules : List Module
modules =
    entry "defects" "Defects" "/admin/defects" "event:read"
    ∷ entry "alerts" "Alerts" "/admin/alerts" "alert:read"
    ∷ entry "audit-log" "Audit Log" "/admin/audit-log" "audit_log:view"
    ∷ entry "capa" "CAPA" "/admin/capa" "capa:read"
    ∷ entry "documents" "Documents" "/admin/documents" "document:read"
    ∷ entry "audits" "Audits" "/admin/audits" "audit:read"
    ∷ entry "training" "Training" "/admin/training" "training:read"
    ∷ entry "changes" "Change Control" "/admin/changes" "change:read"
    ∷ entry "reports" "Reports" "/admin/reports" "dashboard:view"
    ∷ entry "users" "Users" "/admin/users" "user:manage"
    ∷ entry "settings" "Settings" "/admin/settings/groups" "settings:manage"
    ∷ []

-- `MODULES.get(key)`
unfoldable pub module_of : String → Option Module
module_of key = first (λ m. str_eq m.key key) modules

-- `key in MODULES`
abbrev pub is_module : String → Bool
is_module key = not (is_none (module_of key))

-- A group of a layout in its expected shape
pub record Group : Type 0 where
  pub title : String
  pub modules : List String

abbrev pub Layout : Type 0
Layout = List Group

-- `DEFAULT_LAYOUT`
abbrev pub default_layout : Layout
default_layout =
    record { title = "Operations"; modules = "defects" ∷ "alerts" ∷ "audit-log" ∷ [] }
    ∷ record {
      title = "Management";
      modules =
          "capa" ∷ "documents" ∷ "audits" ∷ "training" ∷ "changes" ∷ "reports" ∷ "users"
          ∷ "settings" ∷ [];
    }
    ∷ []

-- What `for x in value` runs over: the elements, the characters or the keys. Other values are not
-- iterable.
abbrev pub iterate : Json → Result (List Json)
iterate (array js) = ok (to_list js)
iterate (text s) = ok (map text (characters s))
iterate (object ms) = ok (map text (keys ms))
iterate _ = err crash

-- `group.get(name, [])`, iterated
abbrev pub iterate_field : String → Members → Result (List Json)
iterate_field name ms = elim (field name ms) [ none ↦ ok [] | some j ↦ iterate j ]

-- `[m for m in ... if m in MODULES]`: a list or a dict is not hashable.
unfoldable pub known_modules : List Json → Result (List String)
unfolding module_of
known_modules [] = ok []
known_modules (text s ∷ js) = do
  rest ← known_modules js
  ok (if is_module s then s ∷ rest else rest)
known_modules (array _ ∷ js) = err crash
known_modules (object _ ∷ js) = err crash
known_modules (_ ∷ js) = known_modules js

abbrev pub array_of : List Json → Jsons
array_of [] = nil
array_of (j ∷ js) = cons j (array_of js)

abbrev pub group_json : Group → Json
group_json g =
    object
      (member "title" (text g.title) (member "modules" (array (array_of (map text g.modules))) end))

-- The dict that `set_layout` dumps
abbrev pub layout_json : Layout → Json
layout_json groups = object (member "groups" (array (array_of (map group_json groups))) end)

-- `(layout or {}).get("groups", [])`: a value that is no dict has no `get`.
abbrev pub groups_of : Json → Result (List Json)
groups_of (object ms) = iterate_field "groups" ms
groups_of j = if is_falsy j then ok [] else err crash

abbrev pub or_default : Layout → Layout
or_default [] = default_layout
or_default (g ∷ gs) = g ∷ gs

module _ (str_of : Json → String) where
  -- `str(group.get("title", ""))`
  abbrev pub title_of : Option Json → String
  title_of none = ""
  title_of (some (text s)) = s
  title_of (some j) = str_of j

  -- The loop of `_sanitize`
  unfoldable pub sanitize_groups : List Json → Result Layout
  unfolding strip known_modules
  sanitize_groups [] = ok []
  sanitize_groups (object ms ∷ js) = do
    let title = strip (title_of (field "title" ms))
    listed ← iterate_field "modules" ms
    chosen ← known_modules listed
    rest ← sanitize_groups js
    ok (if is_empty title then rest else record { title = title; modules = chosen } ∷ rest)
  sanitize_groups (_ ∷ js) = sanitize_groups js

  -- `_sanitize`
  unfoldable pub sanitize : Json → Result Layout
  unfolding sanitize_groups
  sanitize layout = do
    listed ← groups_of layout
    groups ← sanitize_groups listed
    ok (or_default groups)

  abbrev pub loaded : Option Json → Result Layout
  loaded none = ok default_layout
  loaded (some parsed) = sanitize parsed

  abbrev pub read_layout : (String → Option Json) → Option String → Result Layout
  read_layout loads none = ok default_layout
  read_layout loads (some raw) = if is_empty raw then ok default_layout else loaded (loads raw)

  -- `get_layout`
  unfoldable pub get_layout : (String → Option Json) → List OrgSetting → ℕ → Result Layout
  get_layout loads rows organization_id =
      read_layout loads (get_setting rows organization_id "nav.layout" none)

  -- `set_layout`
  unfoldable pub set_layout :
      (Json → String) → List OrgSetting → ℕ → Json → Result (List OrgSetting)
  set_layout dumps rows organization_id layout = do
    groups ← sanitize layout
    ok (set_setting rows organization_id "nav.layout" (dumps (layout_json groups)))

-- An item of the sidebar
pub record NavItem : Type 0 where
  pub key : String
  pub label : String
  pub href : String
  pub count : Option ℕ

pub record NavGroup : Type 0 where
  pub title : String
  pub modules : List NavItem

abbrev pub granted_to : List String → String → Bool
granted_to granted permission = any (λ p. str_eq p permission) granted

-- `mod and mod["permission"] in granted_set`
abbrev pub shown : List String → Option Module → List NavItem → List NavItem
shown granted none rest = rest
shown granted (some m) rest =
    if granted_to granted m.permission
    then record { key = m.key; label = m.label; href = m.href; count = none } ∷ rest
    else rest

unfoldable pub nav_items : List String → List String → List NavItem
unfolding module_of
nav_items granted [] = []
nav_items granted (key ∷ keys) = shown granted (module_of key) (nav_items granted keys)

abbrev pub unless_empty : String → List NavItem → List NavGroup → List NavGroup
unless_empty title [] rest = rest
unless_empty title (i ∷ is) rest = record { title = title; modules = i ∷ is } ∷ rest

-- `build_nav`
unfoldable pub build_nav : Layout → List String → List NavGroup
unfolding nav_items
build_nav [] granted = []
build_nav (g ∷ gs) granted =
    unless_empty g.title (nav_items granted g.modules) (build_nav gs granted)
