-- ===== src/Routes/Alerts/Scope.antt =====
-- The organization, the trail and the status of alerts, for all requests of
-- app/api/routes/alerts.py that write.
use cron_qms.Prelude.{
  ℕ, ◌≡◌, refl, subst, ◌==◌, none, some, ok, >>=-eq-ok, ok-injective, first, ◌&&◌,
}
use cron_qms.Core.Permissions.{alert_create, alert_read}
use cron_qms.Db.{Db, Env, wrote_to-ok}
use cron_qms.Routes.Access.{require}
use cron_qms.Routes.Alerts.{
  event_or_404, alert_or_404, create_from_defect, require_standalone_enabled, create_standalone,
  close_alert,
}
use cron_qms.Routes.Alerts.Images.{upload_image, delete_image}
use cron_qms.Routes.Alerts.Acknowledgements.{acknowledge}
use cron_qms.Routes.Alerts.Inbox.{mark_read, clear_notifications}
use cron_qms.Routes.Alerts.Requests.{
  Request, warn_of, warn, show_image, drop_image, sign, close, read, clear, handle,
}
use cron_qms.Routes.Alerts.Effects.{
  IsConsistent, IsNewFor, IsConfined, elsewhere, close-IsConfined, image-IsConfined,
  deleted-IsConfined, read-IsConfined,
}
use cron_qms.Routes.Alerts.IssueEffects.{issue-IsConfined, sign-IsConfined}

-- If the tables of alerts are consistent (distinct keys, a complete trail, and statuses that agree
-- with the answers: an open alert waits for a group or has no group, an acknowledged alert has
-- groups and each of them has returned a signed document), and an alert that the request issues gets
-- a key that no alert, no answer and no row of the trail has, then a request that succeeds leaves
-- the alerts of other organizations as they are and the tables consistent.
pub alert_request_scope :
    (env : Env) (max first_key : ℕ) (db : Db) (r : Request) {db' : Db}
    → IsConsistent db
    → IsNewFor env db r
    → handle env max first_key db r ≡ ok db'
    → IsConfined env db db'
unfolding handle create_from_defect create_standalone upload_image delete_image mark_read
    clear_notifications
alert_request_scope env max first_key db (warn_of id p) {db'} wf is_new h =
    let (_, is) = wrote_to-ok (create_from_defect env first_key db id p) h in
    let (_, _, h1) = >>=-eq-ok (require alert_create env db) _ is in
    let (e, _, h2) = >>=-eq-ok (event_or_404 env db id) _ h1 in
    issue-IsConfined env first_key db (some e.id) p wf is_new h2
alert_request_scope env max first_key db (warn p) {db'} wf is_new h =
    let (_, is) = wrote_to-ok (create_standalone env first_key db p) h in
    let (_, _, h1) = >>=-eq-ok (require alert_create env db) _ is in
    let (_, _, h2) = >>=-eq-ok (require_standalone_enabled env db) _ h1 in
    issue-IsConfined env first_key db none p wf is_new h2
alert_request_scope env max first_key db (show_image id position file) {db'} wf is_new h =
    image-IsConfined env max db id position file wf h
alert_request_scope env max first_key db (drop_image id image_id) {db'} wf is_new h =
    let (_, _, h1) = >>=-eq-ok (require alert_create env db) _ h in
    let (a, _, h2) = >>=-eq-ok (alert_or_404 env db id) _ h1 in
    subst (IsConfined env db) (ok-injective h2)
      (deleted-IsConfined env db wf (first (λ i. i.id == image_id && i.alert_id == a.id) db.images))
alert_request_scope env max first_key db (sign id file group note) {db'} wf is_new h =
    let (_, is) = wrote_to-ok (acknowledge env max db id file group note) h in
    sign-IsConfined env max db id file group note wf is
alert_request_scope env max first_key db (close id) {db'} wf is_new h =
    let (_, is) = wrote_to-ok (close_alert env db id) h in close-IsConfined env db id wf is
alert_request_scope env max first_key db (read id) {db'} wf is_new h =
    let (n, is) = wrote_to-ok (mark_read env db id) h in read-IsConfined env db id wf is
alert_request_scope env max first_key db clear {db'} wf is_new h =
    let (_, _, h1) = >>=-eq-ok (require alert_read env db) _ h in
    subst (IsConfined env db) (ok-injective h1) (elsewhere env db _ wf refl refl refl)
