-- ===== src/Tests/AlertTests.antt =====
-- Alerts on a small database.
use cron_qms.Prelude.{ℕ, String, ◌+◌, ◌≡◌, refl, true, false, none, some, [], ◌∷◌, count, ◌==◌, ok}
use cron_qms.Dates.{date}
use cron_qms.Text.{positive_int, read_digits, or_none, join}
use cron_qms.Models.Alert.{
  Alert, AlertImage, AlertAcknowledgement, AssigneeGroup, Notification, quality, high, open_alert,
  acknowledged,
}
use cron_qms.Core.Permissions.{
  require_permission, has, all_permissions, resolve_from_db, user_has_permission,
}
use cron_qms.Db.{Db, session_of}
use cron_qms.Services.OrgSettings.{get_setting, default_expiry_days}
use cron_qms.Routes.Access.{require}
use cron_qms.Routes.Scoped.{get_in_org, insert, save}
use cron_qms.Routes.Tables.More.{alert_table}
use cron_qms.Routes.Documents.Versions.{UploadFile}
use cron_qms.Routes.Alerts.{
  AlertForm, unique_onto, recipient_ids, subject, notify, new_alert, issue_alert, default_expiry,
  members_of, groups_of,
}
use cron_qms.Routes.Alerts.Images.{upload_image}
use cron_qms.Routes.Alerts.Slots
use cron_qms.Routes.Alerts.Slots.{HasSlots, handle-HasSlots}
use cron_qms.Routes.Alerts.Fanout.{as_count, occurs, issue_alert-count}
use cron_qms.Core.Audit.Replay.{Shows-nil}
use cron_qms.Routes.Alerts.Acknowledgements.{
  new_acknowledgement, after_acknowledgement, acknowledge,
}
use cron_qms.Routes.Alerts.Requests
use cron_qms.Routes.Alerts.Effects.{IsConsistent, IsNewAlert, IsConfined}
use cron_qms.Routes.Alerts.IssueEffects.{issue-IsConfined}
use cron_qms.Routes.Alerts.Scope.{alert_request_scope}
use cron_qms.Tests.Fixtures.{env, empty_db}

abbrev night_shift : AssigneeGroup
night_shift = record {
  id = 21;
  organization_id = 7;
  name = "Night shift";
  is_active = true;
  members = 3 ∷ 4 ∷ [];
}

abbrev paint : AssigneeGroup
paint = record {
  id = 22;
  organization_id = 7;
  name = "Paint";
  is_active = true;
  members = 4 ∷ 5 ∷ [];
}

abbrev two_groups : Db
two_groups = record empty_db { groups = night_shift ∷ paint ∷ [] }

abbrev form : AlertForm
form = record {
  title = "Peeling";
  alert_type = "Quality";
  severity = "High";
  affected_product = "";
  affected_lot_batch = "";
  description = "";
  containment_actions = "";
  required_actions = "Stop";
  response_due_date = ok none;
  expires_at = ok (some (date 2024 2 10));
  recipient_group_ids = 21 ∷ 22 ∷ [];
}

abbrev peeling : Alert
peeling = record {
  id = 11;
  organization_id = 7;
  event_id = none;
  title = "Peeling";
  alert_type = quality;
  severity = high;
  status = open_alert;
  affected_product = none;
  affected_lot_batch = none;
  description = none;
  containment_actions = none;
  required_actions = some "Stop";
  response_due_date = none;
  expires_at = some (date 2024 2 10);
  issued_by = 1;
  is_active = true;
  recipient_groups = 21 ∷ 22 ∷ [];
}

abbrev told : ℕ → ℕ → Notification
told key user_id = record {
  id = key;
  organization_id = 7;
  user_id = user_id;
  alert_id = some 11;
  subject = "High Quality Alert: Peeling";
  body = "Stop";
  is_read = false;
}

abbrev issued_db : Db
issued_db = record (insert alert_table env (session_of env) two_groups peeling) {
  notifications = told 31 3 ∷ told 32 4 ∷ told 33 5 ∷ [];
}

issue : issue_alert env 31 two_groups none form ≡ ok (issued_db, peeling)
unfolding issue_alert new_alert notify subject unique_onto recipient_ids or_none join default_expiry
    default_expiry_days get_setting positive_int read_digits
issue = refl

issue_alert-count_example :
    count (λ n. n.user_id == 4) issued_db.notifications
    ≡ count (λ n. n.user_id == 4) two_groups.notifications
      + as_count (occurs 4 (members_of (groups_of env two_groups form.recipient_group_ids)))
issue_alert-count_example = issue_alert-count env 31 two_groups none form 4 issue

abbrev photo : UploadFile
photo = record {
  filename = some "after.png";
  content_type = none;
  size = 9;
  sha256 = "ab";
  key = "photo";
}

abbrev image : ℕ → String → AlertImage
image id filename = record {
  id = id;
  alert_id = 11;
  position = 1;
  filename = filename;
  content_type = some "image/png";
  size_bytes = 9;
  checksum = "ab";
  storage_key = "photo";
  uploaded_by = 1;
}

abbrev pictured : Db
pictured = record empty_db { alerts = peeling ∷ []; images = image 40 "before.png" ∷ [] }

abbrev replaced : Db
replaced = record pictured { images = image 40 "after.png" ∷ [] }

pictured-HasSlots : HasSlots pictured.images
pictured-HasSlots = record { distinct = (tt, tt); positions = (refl, tt) }

replacement : Slots.handle env 100 pictured (Slots.upload 11 1 photo) ≡ ok replaced
unfolding Slots.handle upload_image require require_permission user_has_permission has
    resolve_from_db all_permissions get_in_org
replacement = refl

handle-HasSlots_example : HasSlots replaced.images
handle-HasSlots_example =
    handle-HasSlots env 100 pictured (Slots.upload 11 1 photo) pictured-HasSlots replacement

abbrev note_form : AlertForm
note_form = record form { recipient_group_ids = 21 ∷ [] }

abbrev notice : Alert
notice = record peeling { recipient_groups = 21 ∷ [] }

abbrev noted : Db
noted = record (insert alert_table env (session_of env) two_groups notice) {
  notifications = told 31 3 ∷ told 32 4 ∷ [];
}

noting : issue_alert env 31 two_groups none note_form ≡ ok (noted, notice)
unfolding issue_alert new_alert notify subject unique_onto recipient_ids or_none join default_expiry
    default_expiry_days get_setting positive_int read_digits
noting = refl

two_groups-IsNewAlert : IsNewAlert env two_groups
two_groups-IsNewAlert = record {
  new_key = record { unused = tt; silent = Shows-nil (record { entity = "alert"; id = 11 }) };
  unanswered = tt;
}

noted-IsConsistent : IsConsistent noted
noted-IsConsistent =
    (issue-IsConfined env 31 two_groups none note_form
      (record { audited = record { recorded = tt; keys = tt }; answers = tt }) two_groups-IsNewAlert
      noting).consistent

abbrev signature : AlertAcknowledgement
signature = record {
  id = 11;
  alert_id = 11;
  filename = "after.png";
  content_type = none;
  size_bytes = 9;
  checksum = "ab";
  storage_key = "photo";
  submitted_by = 1;
  group_id = some 21;
  note = none;
}

abbrev signed : Db
signed =
    save alert_table env (session_of env) (record noted { acknowledgements = signature ∷ [] })
      notice (record notice { status = acknowledged })

signing : Requests.handle env 100 40 noted (Requests.sign 11 photo (ok (some 21)) "") ≡ ok signed
unfolding Requests.handle acknowledge after_acknowledgement new_acknowledgement or_none require
    require_permission user_has_permission has resolve_from_db all_permissions get_in_org insert
signing = refl

alert_request_scope_example : IsConfined env noted signed
alert_request_scope_example =
    alert_request_scope env 100 40 noted (Requests.sign 11 photo (ok (some 21)) "")
      noted-IsConsistent tt signing
