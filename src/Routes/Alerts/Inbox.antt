-- ===== src/Routes/Alerts/Inbox.antt =====
-- The inbox of a user in app/api/routes/alerts.py.
use cron_qms.Prelude.{
  ℕ, true, not, ◌&&◌, map, count, first, overwrite, ◌==◌, if◌then◌else◌, Result, ok, http, or_raise,
  ◌>>=◌, ◌>>◌,
}
use cron_qms.Models.Alert.{Notification}
use cron_qms.Core.Permissions.{alert_read}
use cron_qms.Db.{Db, Env}
use cron_qms.Routes.Access.{require}

-- `_unread_count`
unfoldable pub unread_count : Db → ℕ → ℕ
unread_count db user_id = count (λ n. n.user_id == user_id && not n.is_read) db.notifications

unfoldable pub mark_read : Env → Db → ℕ → Result (Db × Notification)
mark_read env db notification_id = do
  require alert_read env db
  n ←
      or_raise (first (λ n. n.id == notification_id && n.user_id == env.user.id) db.notifications)
        (http 404 "Notification not found")
  let n' = record n { is_read = true }
  ok (record db { notifications = overwrite (λ x. x.id == n.id) n' db.notifications }, n')

abbrev pub cleared : ℕ → Notification → Notification
cleared user_id n = if n.user_id == user_id && not n.is_read then record n { is_read = true } else n

unfoldable pub clear_notifications : Env → Db → Result Db
clear_notifications env db = do
  require alert_read env db
  ok (record db { notifications = map (cleared env.user.id) db.notifications })
