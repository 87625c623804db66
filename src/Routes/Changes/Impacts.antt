-- ===== src/Routes/Changes/Impacts.antt =====
-- The impact assessment in app/api/routes/changes.py. Its rows are not audited.
use cron_qms.Prelude.{
  ℕ, String, not, Option, [], ◌∷◌, ◌++◌, map, filter, overwrite, ◌==◌, Result, ok, http, ◌>>=◌,
  ◌>>◌,
}
use cron_qms.Models.Change.{ImpactArea, ImpactLevel, ChangeRequest, ChangeImpact, impacts_of}
use cron_qms.Core.Permissions.{change_assess}
use cron_qms.Db.{Db, Env}
use cron_qms.Routes.Nested.{get_child, next_order}
use cron_qms.Routes.Access.{require, Field, assign, chosen}
use cron_qms.Routes.Changes.{get_change_in_org}

pub record ImpactCreate : Type 0 where
  pub area : ImpactArea
  pub impact_level : ImpactLevel
  pub description : Option String
  pub mitigation : Option String

pub record ImpactUpdate : Type 0 where
  pub area : Field ImpactArea
  pub impact_level : Field ImpactLevel
  pub description : Field String
  pub mitigation : Field String

-- `_get_impact_in_change`
abbrev pub get_impact_in_change : Db → ChangeRequest → ℕ → Result ChangeImpact
get_impact_in_change db change impact_id =
    get_child (λ i. i.id) (λ i. i.change_id) (http 404 "Impact assessment not found") db.impacts
      change.id impact_id

unfoldable pub new_impact : Env → Db → ChangeRequest → ImpactCreate → ChangeImpact
new_impact env db change p = record {
  id = env.new_id;
  organization_id = change.organization_id;
  change_id = change.id;
  area = p.area;
  impact_level = p.impact_level;
  description = p.description;
  mitigation = p.mitigation;
  display_order = next_order (map (λ i. i.display_order) (impacts_of change.id db.impacts));
}

unfoldable pub add_impact : Env → Db → ℕ → ImpactCreate → Result (Db × ChangeImpact)
add_impact env db change_id p = do
  require change_assess env db
  change ← get_change_in_org env db change_id
  let impact = new_impact env db change p
  ok (record db { impacts = db.impacts ++ impact ∷ [] }, impact)

unfoldable pub updated_impact : ImpactUpdate → ChangeImpact → ChangeImpact
updated_impact p impact = record impact {
  area = chosen p.area impact.area;
  impact_level = chosen p.impact_level impact.impact_level;
  description = assign p.description impact.description;
  mitigation = assign p.mitigation impact.mitigation;
}

unfoldable pub update_impact : Env → Db → ℕ → ℕ → ImpactUpdate → Result (Db × ChangeImpact)
update_impact env db change_id impact_id p = do
  require change_assess env db
  change ← get_change_in_org env db change_id
  impact ← get_impact_in_change db change impact_id
  let impact' = updated_impact p impact
  ok (record db { impacts = overwrite (λ i. i.id == impact.id) impact' db.impacts }, impact')

unfoldable pub delete_impact : Env → Db → ℕ → ℕ → Result Db
delete_impact env db change_id impact_id = do
  require change_assess env db
  change ← get_change_in_org env db change_id
  impact ← get_impact_in_change db change impact_id
  ok (record db { impacts = filter (λ i. not (i.id == impact.id)) db.impacts })
