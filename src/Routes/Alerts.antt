-- ===== src/Routes/Alerts.antt =====
-- app/api/routes/alerts.py: issuing and closing alerts. A redirect with an error message, which
-- leaves the database as it was, is the error `http 303` with the message. A date text of a form is
-- given by what `_to_date` makes of it.
pub mod Images
pub mod Acknowledgements
pub mod Inbox
pub mod Slots
pub mod Fanout
pub mod Requests
pub mod Answers
pub mod Returned
pub mod Effects
pub mod IssueEffects
pub mod Scope
use cron_qms.Prelude.{
  ℕ, suc, String, Bool, true, false, not, ◌&&◌, Option, none, some, List, [], ◌∷◌, ◌++◌, map, any,
  filter, first, overwrite, str_eq, ◌==◌, or_else, if◌then◌else◌, Result, ok, err, http, raise_if,
  ◌>>=◌, ◌>>◌,
}
use cron_qms.Text.{or_none, join}
use cron_qms.Dates.{Date, add_days}
use cron_qms.Models.Event.{Event}
use cron_qms.Models.Alert.{
  AlertType, AlertSeverity, AssigneeGroup, Alert, Notification, quality, safety, low, medium, high,
  critical, open_alert, closed_alert, type_value, severity_value,
}
use cron_qms.Core.Permissions.{alert_create, alert_close}
use cron_qms.Db.{Db, Env, session_of}
use cron_qms.Services.OrgSettings.{standalone_alerts_enabled, default_expiry_days}
use cron_qms.Routes.Scoped.{get_in_org, save, insert}
use cron_qms.Routes.Tables.{event_table}
use cron_qms.Routes.Tables.More.{alert_table}
use cron_qms.Routes.Access.{require, in_org}

-- The fields of the two forms that create an alert
pub record AlertForm : Type 0 where
  pub title : String
  pub alert_type : String
  pub severity : String
  pub affected_product : String
  pub affected_lot_batch : String
  pub description : String
  pub containment_actions : String
  pub required_actions : String
  pub response_due_date : Result (Option Date)
  pub expires_at : Result (Option Date)
  pub recipient_group_ids : List ℕ

-- `_event_or_404` and `_alert_or_404`
abbrev pub event_or_404 : Env → Db → ℕ → Result Event
event_or_404 = get_in_org event_table (http 404 "Defect not found")

abbrev pub alert_or_404 : Env → Db → ℕ → Result Alert
alert_or_404 = get_in_org alert_table (http 404 "Alert not found")

-- `_default_expiry`
unfoldable pub default_expiry : Env → Db → ℕ → Result Date
default_expiry env db organization_id =
    add_days env.today (default_expiry_days db.settings organization_id)

-- The query of the recipient groups
abbrev pub groups_of : Env → Db → List ℕ → List AssigneeGroup
groups_of env db ids =
    filter (λ g. any (λ id. id == g.id) ids && (in_org g.organization_id env && g.is_active))
      db.groups

abbrev pub known_type : String → AlertType
known_type raw = or_else (first (λ t. str_eq (type_value t) raw) (quality ∷ safety ∷ [])) quality

abbrev pub known_severity : String → AlertSeverity
known_severity raw =
    or_else (first (λ s. str_eq (severity_value s) raw) (low ∷ medium ∷ high ∷ critical ∷ []))
      medium

abbrev pub expiry_or : Option Date → Result Date → Result Date
expiry_or (some day) default = ok day
expiry_or none default = default

-- `{member.id for group in groups for member in group.members}`
abbrev pub add_once : List ℕ → ℕ → List ℕ
add_once seen id = if any (λ x. x == id) seen then seen else seen ++ id ∷ []

unfoldable pub unique_onto : List ℕ → List ℕ → List ℕ
unique_onto seen [] = seen
unique_onto seen (id ∷ ids) = unique_onto (add_once seen id) ids

abbrev pub members_of : List AssigneeGroup → List ℕ
members_of [] = []
members_of (g ∷ gs) = g.members ++ members_of gs

unfoldable pub recipient_ids : List AssigneeGroup → List ℕ
unfolding unique_onto
recipient_ids groups = unique_onto [] (members_of groups)

unfoldable pub subject : Alert → String
unfolding join
subject a =
    join (severity_value a.severity ∷ " " ∷ type_value a.alert_type ∷ " Alert: " ∷ a.title ∷ [])

-- The notifications of an alert; the database numbers them from `first_key`.
unfoldable pub notify : ℕ → Alert → List ℕ → List Notification
unfolding subject
notify first_key a [] = []
notify first_key a (user_id ∷ ids) =
    record {
      id = first_key;
      organization_id = a.organization_id;
      user_id = user_id;
      alert_id = some a.id;
      subject = subject a;
      body = or_else a.required_actions (or_else a.description "");
      is_read = false;
    }
    ∷ notify (suc first_key) a ids

unfoldable pub new_alert :
    Env → Option ℕ → ℕ → AlertForm → List AssigneeGroup → Option Date → Date → Alert
unfolding or_none
new_alert env event_id organization_id p groups due expires = record {
  id = env.new_id;
  organization_id = organization_id;
  event_id = event_id;
  title = p.title;
  alert_type = known_type p.alert_type;
  severity = known_severity p.severity;
  status = open_alert;
  affected_product = or_none p.affected_product;
  affected_lot_batch = or_none p.affected_lot_batch;
  description = or_none p.description;
  containment_actions = or_none p.containment_actions;
  required_actions = or_none p.required_actions;
  response_due_date = due;
  expires_at = some expires;
  issued_by = env.user.id;
  is_active = true;
  recipient_groups = map (λ g. g.id) groups;
}

abbrev pub is_nil {ℓ} : {A : Type ℓ} → List A → Bool
is_nil [] = true
is_nil (_ ∷ _) = false

-- A user without an organization finds no group.
abbrev pub own_organization : Env → Result ℕ
own_organization env = elim env.user.organization_id [
  | none ↦ err (http 303 "Select at least one recipient group.")
  | some o ↦ ok o
]

-- `_issue_alert` and the commit after it
unfoldable pub issue_alert : Env → ℕ → Db → Option ℕ → AlertForm → Result (Db × Alert)
unfolding new_alert notify
issue_alert env first_key db event_id p = do
  let groups = groups_of env db p.recipient_group_ids
  raise_if (is_nil groups) (http 303 "Select at least one recipient group.")
  organization_id ← own_organization env
  due ← p.response_due_date
  asked ← p.expires_at
  expires ← expiry_or asked (default_expiry env db organization_id)
  let a = new_alert env event_id organization_id p groups due expires
  let told = notify first_key a (recipient_ids groups)
  let written = insert alert_table env (session_of env) db a
  ok (record written { notifications = db.notifications ++ told }, a)

unfoldable pub create_from_defect : Env → ℕ → Db → ℕ → AlertForm → Result (Db × Alert)
create_from_defect env first_key db event_id p = do
  require alert_create env db
  event ← event_or_404 env db event_id
  issue_alert env first_key db (some event.id) p

abbrev pub standalone_enabled : Env → Db → Bool
standalone_enabled env db = elim env.user.organization_id [
  | none ↦ false
  | some o ↦ standalone_alerts_enabled db.settings o
]

-- `_require_standalone_enabled`
abbrev pub require_standalone_enabled : Env → Db → Result (Unit {0})
require_standalone_enabled env db =
    raise_if (not (standalone_enabled env db))
      (http 404 "Standalone alerts are not enabled for this organization")

unfoldable pub create_standalone : Env → ℕ → Db → AlertForm → Result (Db × Alert)
create_standalone env first_key db p = do
  require alert_create env db
  require_standalone_enabled env db
  issue_alert env first_key db none p

unfoldable pub close_alert : Env → Db → ℕ → Result (Db × Alert)
close_alert env db alert_id = do
  require alert_close env db
  a ← alert_or_404 env db alert_id
  let a' = record a { status = closed_alert }
  ok (save alert_table env (session_of env) db a a', a')
