-- ===== src/Routes/Alerts/Acknowledgements.antt =====
-- The acknowledgements of an alert in app/api/routes/alerts.py. The number of the group in the form
-- is given by what `int` makes of it.
use cron_qms.Prelude.{
  ℕ, String, Bool, true, not, ◌&&◌, Option, List, [], ◌∷◌, ◌++◌, any, ltb, ◌==◌, is_some_of,
  if◌then◌else◌, Result, ok, http, raise_if, ◌>>=◌, ◌>>◌,
}
use cron_qms.Text.{or_none}
use cron_qms.Models.Alert.{Alert, AlertAcknowledgement, acknowledged, is_open}
use cron_qms.Core.Permissions.{alert_acknowledge}
use cron_qms.Db.{Db, Env, session_of}
use cron_qms.Routes.Scoped.{save}
use cron_qms.Routes.Tables.More.{alert_table}
use cron_qms.Routes.Access.{require}
use cron_qms.Routes.Documents.Versions.{UploadFile}
use cron_qms.Routes.Alerts.{alert_or_404, is_nil}
use cron_qms.Routes.Alerts.Images.{text_or}

unfoldable pub new_acknowledgement : Env → ℕ → UploadFile → Option ℕ → String → AlertAcknowledgement
unfolding or_none
new_acknowledgement env alert_id file group_id note = record {
  id = env.new_id;
  alert_id = alert_id;
  filename = text_or file.filename "upload";
  content_type = file.content_type;
  size_bytes = file.size;
  checksum = file.sha256;
  storage_key = file.key;
  submitted_by = env.user.id;
  group_id = group_id;
  note = or_none note;
}

-- Whether a group is one of `responded_groups`
abbrev pub responded : ℕ → List AlertAcknowledgement → ℕ → Bool
responded alert_id rows group =
    any (λ k. k.alert_id == alert_id && is_some_of group k.group_id) rows

-- `required_groups <= responded_groups`
abbrev pub all_responded : ℕ → List AlertAcknowledgement → List ℕ → Bool
all_responded alert_id rows [] = true
all_responded alert_id rows (g ∷ gs) = responded alert_id rows g && all_responded alert_id rows gs

-- `required_groups and required_groups <= responded_groups`
abbrev pub is_answered : Alert → List AlertAcknowledgement → Bool
is_answered a rows = not (is_nil a.recipient_groups) && all_responded a.id rows a.recipient_groups

-- The alert after an acknowledgement
unfoldable pub after_acknowledgement : Alert → List AlertAcknowledgement → Alert
after_acknowledgement a rows =
    if is_open a.status && is_answered a rows then record a { status = acknowledged } else a

unfoldable pub acknowledge :
    Env → ℕ → Db → ℕ → UploadFile → Result (Option ℕ) → String → Result (Db × Alert)
unfolding after_acknowledgement
acknowledge env attachment_max_bytes db alert_id file group_id note = do
  require alert_acknowledge env db
  a ← alert_or_404 env db alert_id
  raise_if (file.size == 0) (http 303 "Empty file")
  raise_if (ltb attachment_max_bytes file.size) (http 303 "File exceeds maximum allowed size")
  group ← group_id
  let rows = db.acknowledgements ++ new_acknowledgement env a.id file group note ∷ []
  let a' = after_acknowledgement a rows
  ok (save alert_table env (session_of env) (record db { acknowledgements = rows }) a a', a')
