-- ===== src/Routes/Alerts/Requests.antt =====
-- The requests of app/api/routes/alerts.py that write.
use cron_qms.Prelude.{ℕ, String, Option, Result}
use cron_qms.Db.{Db, Env, wrote_to}
use cron_qms.Routes.Documents.Versions.{UploadFile}
use cron_qms.Routes.Alerts.{AlertForm, create_from_defect, create_standalone, close_alert}
use cron_qms.Routes.Alerts.Images.{upload_image, delete_image}
use cron_qms.Routes.Alerts.Acknowledgements.{acknowledge}
use cron_qms.Routes.Alerts.Inbox.{mark_read, clear_notifications}

pub data Request : Type 0 where
  warn_of : ℕ → AlertForm → Request
  warn : AlertForm → Request
  show_image : ℕ → ℕ → UploadFile → Request
  drop_image : ℕ → ℕ → Request
  sign : ℕ → UploadFile → Result (Option ℕ) → String → Request
  close : ℕ → Request
  read : ℕ → Request
  clear : Request

-- `max` is the limit on the size of an upload, and `first_key` the key of the first notification.
unfoldable pub handle : Env → ℕ → ℕ → Db → Request → Result Db
unfolding create_from_defect create_standalone close_alert upload_image delete_image acknowledge
    mark_read clear_notifications
handle env max first_key db (warn_of event_id p) =
    wrote_to (create_from_defect env first_key db event_id p)
handle env max first_key db (warn p) = wrote_to (create_standalone env first_key db p)
handle env max first_key db (show_image id position file) = upload_image env max db id position file
handle env max first_key db (drop_image id image_id) = delete_image env db id image_id
handle env max first_key db (sign id file group note) =
    wrote_to (acknowledge env max db id file group note)
handle env max first_key db (close id) = wrote_to (close_alert env db id)
handle env max first_key db (read id) = wrote_to (mark_read env db id)
handle env max first_key db clear = clear_notifications env db
