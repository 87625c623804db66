-- ===== src/Services/OrgSettings/Rules.antt =====
-- Reading the options of an organization back after they are set.
use cron_qms.Prelude.{
  ℕ, String, ◌≡◌, ap, subst, ◌∙◌, inl, inr, Bool, Bool-cases, true, false, ◌&&◌, Option, some, List,
  arith, first, first-holds, first-append, first-append_miss, first-overwrite, first-overwrite_miss,
  ◌==◌, str_eq, eq_refl, eq_iff, Option-cases, if◌then◌else◌,
}
use cron_qms.Models.Organization.{OrgSetting}
use cron_qms.Services.OrgSettings.{is_setting, value_or, upsert, get_setting, set_setting}

-- Whether two options are the same: the organization and the key.
abbrev pub same_option : ℕ → String → ℕ → String → Bool
same_option o k o' k' = o == o' && str_eq k k'

module _ (rows : List OrgSetting) (o : ℕ) (k v : String) where
  set_setting-same :
      (default : Option String) → get_setting (set_setting rows o k v) o k default ≡ some v
  unfolding get_setting set_setting
  set_setting-same default =
      let test : OrgSetting → Bool = is_setting o k in
      let new : OrgSetting = record { organization_id = o; key = k; value = some v } in
      let passes : test new ≡ true = ground (arith, eq_refl k) in
      elim (Option-cases (first test rows)) [
        | inl absent ↦
            ap (λ f. value_or (first test (upsert f rows o k v)) default) absent
            ∙ ap (λ f. value_or f default) (first-append test rows new absent passes)
        | inr (row, found) ↦
            let holds = first-holds test rows found in
            let written : OrgSetting = record row { value = some v } in
            ap (λ f. value_or (first test (upsert f rows o k v)) default) found
            ∙ ap (λ f. value_or f default) (first-overwrite test written rows found holds)
      ]

  set_setting-other :
      (o' : ℕ) (k' : String) (default : Option String)
      → same_option o k o' k' ≡ false
      → get_setting (set_setting rows o k v) o' k' default ≡ get_setting rows o' k' default
  unfolding get_setting set_setting
  set_setting-other o' k' default differ =
      let test : OrgSetting → Bool = is_setting o k in
      let other : OrgSetting → Bool = is_setting o' k' in
      let new : OrgSetting = record { organization_id = o; key = k; value = some v } in
      elim (Option-cases (first test rows)) [
        | inl absent ↦
            ap (λ f. value_or (first other (upsert f rows o k v)) default) absent
            ∙ ap (λ f. value_or f default) (first-append_miss other rows new differ)
        | inr (row, found) ↦
            let holds = first-holds test rows found in
            let written : OrgSetting = record row { value = some v } in
            let misses : other row ≡ false = ground (arith, eq_iff row.key k) in
            ap (λ f. value_or (first other (upsert f rows o k v)) default) found
            ∙ ap (λ f. value_or f default)
                (first-overwrite_miss other test written rows found misses misses)
      ]

  -- A setting that is set reads back as it was set, and every other setting of every organization
  -- reads as before.
  pub get_setting-set_setting :
      (o' : ℕ) (k' : String) (default : Option String)
      → get_setting (set_setting rows o k v) o' k' default
        ≡ (if same_option o k o' k' then some v else get_setting rows o' k' default)
  get_setting-set_setting o' k' default = elim (Bool-cases (same_option o k o' k')) [
    | inl e ↦
        let same_o : o ≡ o' = ground (arith, eq_iff k k') in
        let same_k : k ≡ k' = ground (arith, eq_iff k k') in
        let reads =
          subst (λ x. get_setting (set_setting rows o k v) x k default ≡ some v) same_o
            (set_setting-same default) in
        subst (λ x. get_setting (set_setting rows o k v) o' x default ≡ some v) same_k reads ∙ rw e
    | inr e ↦ set_setting-other o' k' default e ∙ rw e
  ]
