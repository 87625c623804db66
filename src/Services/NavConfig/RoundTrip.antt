-- ===== src/Services/NavConfig/RoundTrip.antt =====
-- A layout that is saved reads back as it was sanitized.
use cron_qms.Prelude.{
  ℕ, String, ◌≡◌, refl, ap, subst, ◌∙◌, inl, inr, Bool-cases, true, false, Option, some, none, List,
  [], ◌∷◌, map, All, arith, ok, >>=-eq-ok, ok-injective, ◌==◌, if◌then◌else◌,
}
use cron_qms.Text.{strip, lstrip, rstrip, is_space, is_empty}
use cron_qms.Models.Organization.{OrgSetting}
use cron_qms.Services.OrgSettings.{get_setting, set_setting}
use cron_qms.Services.OrgSettings.Rules.{get_setting-set_setting}
use cron_qms.Services.NavConfig.{
  Group, Layout, module_of, is_module, default_layout, iterate_field, known_modules, title_of,
  sanitize_groups, groups_of, or_default, sanitize, read_layout, get_layout, array_of, group_json,
  layout_json, set_layout,
}
use cron_qms.Services.NavConfig.JsonValues.{
  Json, null, truth, number, text, array, object, field, to_list,
}
use cron_qms.Services.NavConfig.Trimmed.{strip-same}

-- A group as `_sanitize` makes it: a stripped title that is not blank, and known modules.
pub record IsShaped (g : Group) : Type 0 where
  pub stripped : strip g.title ≡ g.title
  pub titled : is_empty g.title ≡ false
  pub known : All (λ m. is_module m ≡ true) g.modules

to_list-array_of : (js : List Json) → to_list (array_of js) ≡ js
to_list-array_of [] = refl
to_list-array_of (j ∷ js) = ap (λ r. j ∷ r) (to_list-array_of js)

known_modules-known :
    (js : List Json) {ms : List String}
    → known_modules js ≡ ok ms
    → All (λ m. is_module m ≡ true) ms
unfolding known_modules
known_modules-known [] h = subst (All (λ m. is_module m ≡ true)) (ok-injective h) tt
known_modules-known (text s ∷ js) {ms} h =
    let (rest, is_rest, h1) = >>=-eq-ok (known_modules js) _ h in
    let ih = known_modules-known js is_rest in
    elim (Bool-cases (is_module s)) [
      | inl e ↦
          let is : s ∷ rest ≡ ms = ground arith in subst (All (λ m. is_module m ≡ true)) is (e, ih)
      | inr e ↦ let is : rest ≡ ms = ground arith in subst (All (λ m. is_module m ≡ true)) is ih
    ]
known_modules-known (array _ ∷ js) h = cc
known_modules-known (object _ ∷ js) h = cc
known_modules-known (null ∷ js) h = known_modules-known js h
known_modules-known (truth _ ∷ js) h = known_modules-known js h
known_modules-known (number _ ∷ js) h = known_modules-known js h

-- Known modules are kept.
known_modules-same :
    (ms : List String) → All (λ m. is_module m ≡ true) ms → known_modules (map text ms) ≡ ok ms
unfolding known_modules
known_modules-same [] known = refl
known_modules-same (m ∷ ms) known = rw (known_modules-same ms known.1, known.0)

-- What `_sanitize` gives has groups, and each is as it should be.
record IsClean (gs : Layout) : Type 0 where
  pub shaped : All IsShaped gs
  pub some_group : or_default gs ≡ gs

default-IsClean : IsClean default_layout
unfolding strip lstrip rstrip is_space module_of
default-IsClean = record {
  shaped = (
    record { stripped = refl; titled = refl; known = (refl, (refl, (refl, tt))) },
    (
      record {
        stripped = refl;
        titled = refl;
        known = (refl, (refl, (refl, (refl, (refl, (refl, (refl, (refl, tt))))))));
      },
      tt,
    ),
  );
  some_group = refl;
}

or_default-IsClean : (gs : Layout) → All IsShaped gs → IsClean (or_default gs)
or_default-IsClean [] shaped = default-IsClean
or_default-IsClean (g ∷ gs) shaped = record { shaped = shaped; some_group = refl }

module _ (str_of : Json → String) where
  sanitize_groups-IsShaped :
      (js : List Json) {gs : Layout} → sanitize_groups str_of js ≡ ok gs → All IsShaped gs
  unfolding sanitize_groups
  sanitize_groups-IsShaped [] h = subst (All IsShaped) (ok-injective h) tt
  sanitize_groups-IsShaped (object ms ∷ js) {gs} h =
      let title = strip (title_of str_of (field "title" ms)) in
      let (listed, _, h1) = >>=-eq-ok (iterate_field "modules" ms) _ h in
      let (chosen, is_chosen, h2) = >>=-eq-ok (known_modules listed) _ h1 in
      let (rest, is_rest, h3) = >>=-eq-ok (sanitize_groups str_of js) _ h2 in
      let ih = sanitize_groups-IsShaped js is_rest in
      elim (Bool-cases (is_empty title)) [
        | inl e ↦ let is : rest ≡ gs = ground arith in subst (All IsShaped) is ih
        | inr e ↦
            let g : Group = record { title = title; modules = chosen } in
            let is : g ∷ rest ≡ gs = ground arith in
            subst (All IsShaped) is (
              record {
                stripped = strip-same (title_of str_of (field "title" ms));
                titled = e;
                known = known_modules-known listed is_chosen;
              },
              ih,
            )
      ]
  sanitize_groups-IsShaped (null ∷ js) h = sanitize_groups-IsShaped js h
  sanitize_groups-IsShaped (truth _ ∷ js) h = sanitize_groups-IsShaped js h
  sanitize_groups-IsShaped (number _ ∷ js) h = sanitize_groups-IsShaped js h
  sanitize_groups-IsShaped (text _ ∷ js) h = sanitize_groups-IsShaped js h
  sanitize_groups-IsShaped (array _ ∷ js) h = sanitize_groups-IsShaped js h

  sanitize_groups-same :
      (gs : Layout) → All IsShaped gs → sanitize_groups str_of (map (group_json) gs) ≡ ok gs
  unfolding sanitize_groups
  sanitize_groups-same [] shaped = refl
  sanitize_groups-same (g ∷ gs) shaped = rw (
    to_list-array_of (map text g.modules),
    known_modules-same g.modules shaped.0.known,
    sanitize_groups-same gs shaped.1,
    shaped.0.stripped,
    shaped.0.titled,
  )

  sanitize-IsClean : (layout : Json) {gs : Layout} → sanitize str_of layout ≡ ok gs → IsClean gs
  unfolding sanitize
  sanitize-IsClean layout {gs} h =
      let (listed, _, h1) = >>=-eq-ok (groups_of layout) _ h in
      let (groups, is_groups, h2) = >>=-eq-ok (sanitize_groups str_of listed) _ h1 in
      subst IsClean (ok-injective h2)
        (or_default-IsClean groups (sanitize_groups-IsShaped listed is_groups))

  sanitize-same : (gs : Layout) → IsClean gs → sanitize str_of (layout_json gs) ≡ ok gs
  unfolding sanitize
  sanitize-same gs clean =
      rw (
        to_list-array_of (map group_json gs),
        sanitize_groups-same gs clean.shaped,
        clean.some_group,
      )

  -- A layout that is saved, and that json.loads reads back from what json.dumps wrote (a text that
  -- is not empty), is read back as it was sanitized by its organization, and every other
  -- organization reads its layout as before.
  pub get_layout-set_layout :
      (dumps : Json → String) (loads : String → Option Json) (rows : List OrgSetting) (o : ℕ)
      (layout : Json) (reader : ℕ) {gs : Layout}
      → sanitize str_of layout ≡ ok gs
      → is_empty (dumps (layout_json gs)) ≡ false
      → loads (dumps (layout_json gs)) ≡ some (layout_json gs)
      → (rows' : List OrgSetting) × (set_layout str_of dumps rows o layout ≡ ok rows')
        × (get_layout str_of loads rows' reader
            ≡ (if o == reader then ok gs else get_layout str_of loads rows reader))
  unfolding get_layout set_layout
  get_layout-set_layout dumps loads rows o layout reader {gs} is_gs written back =
      let raw = dumps (layout_json gs) in
      let rows' = set_setting rows o "nav.layout" raw in
      let reads = get_setting-set_setting rows o "nav.layout" raw reader "nav.layout" none in
      let reread : read_layout str_of loads (some raw) ≡ ok gs =
        rw (written, back) (sanitize-same gs (sanitize-IsClean layout is_gs)) in
      (
        rows',
        rw is_gs refl,
        elim (Bool-cases (o == reader)) [
          | inl e ↦
              let own : get_setting rows' reader "nav.layout" none ≡ some raw = reads ∙ rw e in
              ap (read_layout str_of loads) own ∙ reread ∙ rw e
          | inr e ↦
              let other : get_setting rows' reader "nav.layout" none
                  ≡ get_setting rows reader "nav.layout" none =
                reads ∙ rw e in
              ap (read_layout str_of loads) other ∙ rw e
        ],
      )
