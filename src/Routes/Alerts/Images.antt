-- ===== src/Routes/Alerts/Images.antt =====
-- The pictures of an alert in app/api/routes/alerts.py. The storage key and the checksum come with
-- the upload, as in Routes/Documents.
use cron_qms.Prelude.{
  ℕ, String, Bool, not, ◌&&◌, ◌||◌, Option, none, some, List, [], ◌∷◌, ◌++◌, filter, first,
  overwrite, ltb, ◌==◌, if◌then◌else◌, Result, ok, http, raise_if, ◌>>=◌, ◌>>◌,
}
use cron_qms.Text.{is_empty}
use cron_qms.Models.Alert.{AlertImage}
use cron_qms.Core.Permissions.{alert_create}
use cron_qms.Db.{Db, Env}
use cron_qms.Routes.Access.{require}
use cron_qms.Routes.Documents.Versions.{UploadFile}
use cron_qms.Routes.Alerts.{alert_or_404}

-- `a or b` of texts
abbrev pub text_or : Option String → String → String
text_or none other = other
text_or (some s) other = if is_empty s then other else s

abbrev pub is_slot : ℕ → ℕ → AlertImage → Bool
is_slot alert_id position i = i.alert_id == alert_id && i.position == position

unfoldable pub new_image : Env → ℕ → ℕ → UploadFile → AlertImage
new_image env alert_id position file = record {
  id = env.new_id;
  alert_id = alert_id;
  position = position;
  filename = text_or file.filename "image.png";
  content_type = some (text_or file.content_type "image/png");
  size_bytes = file.size;
  checksum = file.sha256;
  storage_key = file.key;
  uploaded_by = env.user.id;
}

-- "Upsert the slot": the row of an image keeps its key, its alert and its position.
abbrev pub upsert : Env → ℕ → ℕ → UploadFile → List AlertImage → Option AlertImage → List AlertImage
upsert env alert_id position file rows none = rows ++ new_image env alert_id position file ∷ []
upsert env alert_id position file rows (some existing) =
    overwrite (is_slot alert_id position)
      (record existing {
        filename = text_or file.filename "image.png";
        content_type = some (text_or file.content_type "image/png");
        size_bytes = file.size;
        checksum = file.sha256;
        storage_key = file.key;
        uploaded_by = env.user.id;
      })
      rows

unfoldable pub upload_image : Env → ℕ → Db → ℕ → ℕ → UploadFile → Result Db
upload_image env attachment_max_bytes db alert_id position file = do
  require alert_create env db
  a ← alert_or_404 env db alert_id
  raise_if (not ((position == 1) || (position == 2))) (http 303 "Invalid image slot")
  raise_if (file.size == 0) (http 303 "Empty file")
  raise_if (ltb attachment_max_bytes file.size) (http 303 "File exceeds maximum allowed size")
  let existing = first (is_slot a.id position) db.images
  ok (record db { images = upsert env a.id position file db.images existing })

abbrev pub deleted : Db → Option AlertImage → Db
deleted db none = db
deleted db (some image) = record db { images = filter (λ i. not (i.id == image.id)) db.images }

unfoldable pub delete_image : Env → Db → ℕ → ℕ → Result Db
delete_image env db alert_id image_id = do
  require alert_create env db
  a ← alert_or_404 env db alert_id
  ok (deleted db (first (λ i. i.id == image_id && i.alert_id == a.id) db.images))
