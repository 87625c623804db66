-- ===== src/Services/NavConfig/Visible.antt =====
-- What the sidebar shows.
use cron_qms.Prelude.{
  ℕ, String, ◌≡◌, refl, sym, ap, ◌∙◌, inl, inr, Bool, Bool-cases, true, false, Option, none, some,
  List, [], ◌∷◌, ◌++◌, map, filter, filter-append, All, arith, eq_iff, first-holds, str_eq,
  if◌then◌else◌, err, crash,
}
use cron_qms.Text.{is_empty}
use cron_qms.Models.Organization.{OrgSetting}
use cron_qms.Services.OrgSettings.{get_setting}
use cron_qms.Services.NavConfig.{
  Module, Layout, NavItem, NavGroup, modules, module_of, granted_to, shown, nav_items, unless_empty,
  build_nav, read_layout, get_layout, sanitize,
}
use cron_qms.Services.NavConfig.JsonValues.{Json, Jsons, array, cons}

-- The permission of a module is granted.
abbrev pub allows : List String → Option Module → Bool
allows granted none = false
allows granted (some m) = granted_to granted m.permission

abbrev pub allowed : List String → String → Bool
allowed granted key = allows granted (module_of key)

abbrev pub item_keys : List NavItem → List String
item_keys items = map (λ i. i.key) items

abbrev pub nav_keys : List NavGroup → List String
nav_keys [] = []
nav_keys (g ∷ gs) = item_keys g.modules ++ nav_keys gs

abbrev pub layout_keys : Layout → List String
layout_keys [] = []
layout_keys (g ∷ gs) = g.modules ++ layout_keys gs

abbrev pub is_filled : List NavItem → Bool
is_filled [] = false
is_filled (_ ∷ _) = true

module_of-key : (key : String) {m : Module} → module_of key ≡ some m → m.key ≡ key
unfolding module_of
module_of-key key {m} h =
    let is = first-holds (λ (x : Module). str_eq x.key key) modules h in
    ground (arith, eq_iff m.key key)

shown-keys :
    (granted : List String) (key : String) (found : Option Module) (rest : List NavItem)
    → module_of key ≡ found
    → item_keys (shown granted found rest)
      ≡ (if allows granted found then key ∷ item_keys rest else item_keys rest)
shown-keys granted key none rest h = refl
shown-keys granted key (some m) rest h =
    let same = module_of-key key h in
    elim (Bool-cases (granted_to granted m.permission)) [ inl e ↦ rw (e, same) | inr e ↦ rw e ]

nav_items-keys :
    (granted keys : List String)
    → item_keys (nav_items granted keys) ≡ filter (allowed granted) keys
unfolding nav_items
nav_items-keys granted [] = refl
nav_items-keys granted (key ∷ keys) =
    shown-keys granted key (module_of key) (nav_items granted keys) refl
    ∙ ap (λ r. if allowed granted key then key ∷ r else r) (nav_items-keys granted keys)

unless_empty-keys :
    (title : String) (items : List NavItem) (rest : List NavGroup)
    → nav_keys (unless_empty title items rest) ≡ item_keys items ++ nav_keys rest
unless_empty-keys title [] rest = refl
unless_empty-keys title (i ∷ is) rest = refl

unless_empty-filled :
    (title : String) (items : List NavItem) (rest : List NavGroup)
    → All (λ g. is_filled g.modules ≡ true) rest
    → All (λ g. is_filled g.modules ≡ true) (unless_empty title items rest)
unless_empty-filled title [] rest filled = filled
unless_empty-filled title (i ∷ is) rest filled = (refl, filled)

build_nav-keys :
    (layout : Layout) (granted : List String)
    → nav_keys (build_nav layout granted) ≡ filter (allowed granted) (layout_keys layout)
unfolding build_nav
build_nav-keys [] granted = refl
build_nav-keys (g ∷ gs) granted =
    unless_empty-keys g.title (nav_items granted g.modules) (build_nav gs granted)
    ∙ ap (λ r. r ++ nav_keys (build_nav gs granted)) (nav_items-keys granted g.modules)
    ∙ ap (λ r. filter (allowed granted) g.modules ++ r) (build_nav-keys gs granted)
    ∙ sym (filter-append (allowed granted) g.modules (layout_keys gs))

build_nav-filled :
    (layout : Layout) (granted : List String)
    → All (λ g. is_filled g.modules ≡ true) (build_nav layout granted)
unfolding build_nav
build_nav-filled [] granted = tt
build_nav-filled (g ∷ gs) granted =
    unless_empty-filled g.title (nav_items granted g.modules) (build_nav gs granted)
      (build_nav-filled gs granted)

-- The sidebar shows, in the order of the layout, exactly those entries of the layout that are keys
-- of known modules whose permission is granted, and none of its groups is empty.
pub build_nav_lem :
    (layout : Layout) (granted : List String)
    → (nav_keys (build_nav layout granted) ≡ filter (allowed granted) (layout_keys layout))
      × All (λ g. is_filled g.modules ≡ true) (build_nav layout granted)
build_nav_lem layout granted = (build_nav-keys layout granted, build_nav-filled layout granted)

-- A saved layout that is valid JSON, but a list with an element, makes the read of the layout raise
-- an exception that is no HTTP answer.
pub get_layout-list :
    (str_of : Json → String) (loads : String → Option Json) (rows : List OrgSetting) (o : ℕ)
    (raw : String) (j : Json) (js : Jsons)
    → get_setting rows o "nav.layout" none ≡ some raw
    → is_empty raw ≡ false
    → loads raw ≡ some (array (cons j js))
    → get_layout str_of loads rows o ≡ err crash
unfolding get_layout sanitize
get_layout-list str_of loads rows o raw j js saved written parsed =
    ap (read_layout str_of loads) saved ∙ rw (written, parsed)
