-- ===== src/Routes/Alerts/Effects.antt =====
-- What the requests of app/api/routes/alerts.py do to the alerts and their answers.
use cron_qms.Prelude.{
  ℕ, ◌≡◌, refl, ap, subst, false, not, ◌==◌, Option, none, some, All, ok, http, raise_if, >>=-eq-ok,
  ok-pair, ok-injective, overwrite-All, ltb, or_raise, first, ◌&&◌, ◌||◌,
}
use cron_qms.Models.Alert.{Alert, AlertAcknowledgement, AlertImage, Notification, closed_alert}
use cron_qms.Core.Permissions.{alert_create, alert_close, alert_read}
use cron_qms.Db.{Db, Env, session_of}
use cron_qms.Routes.Access.{require}
use cron_qms.Routes.Scoped.{is_row, save}
use cron_qms.Routes.Scoped.Writes.{
  Write, saved, foreign, session_of-actor, get_in_org-IsFound, Write-isolated,
}
use cron_qms.Routes.Scoped.Trail.{IsAudited, IsNewKey, NewFor, NewFor-IsAudited}
use cron_qms.Routes.Tables.More.{alert_table}
use cron_qms.Routes.Documents.Versions.{UploadFile}
use cron_qms.Routes.Alerts.{alert_or_404, close_alert}
use cron_qms.Routes.Alerts.Images.{upload_image, deleted}
use cron_qms.Routes.Alerts.Inbox.{mark_read}
use cron_qms.Routes.Alerts.Returned.{Agrees, done}
use cron_qms.Routes.Alerts.Requests.{Request, warn_of, warn}

-- The keys of the alerts are distinct, the trail shows every alert as it is, and the status of an
-- alert says whether its groups have answered.
pub record IsConsistent (db : Db) : Type 0 where
  pub audited : IsAudited alert_table db
  pub answers : All (Agrees db.acknowledgements) db.alerts

pub record IsNewAlert (env : Env) (db : Db) : Type 0 where
  pub new_key : IsNewKey alert_table env db
  pub unanswered :
      All (λ (k : AlertAcknowledgement). (env.new_id == k.alert_id) ≡ false) db.acknowledgements

-- A request that issues an alert gets a new key for it.
abbrev pub IsNewFor : Env → Db → Request → Type 0
IsNewFor env db (warn_of id p) = IsNewAlert env db
IsNewFor env db (warn p) = IsNewAlert env db
IsNewFor env db r = Unit

pub record IsConfined (env : Env) (db db' : Db) : Type 0 where
  pub consistent : IsConsistent db'
  pub alerts : foreign alert_table env db'.alerts ≡ foreign alert_table env db.alerts

module _ (env : Env) (db db' : Db) (wf : IsConsistent db) where
  -- A request that leaves the alerts and their acknowledgements.
  pub elsewhere :
      db'.alerts ≡ db.alerts
      → db'.acknowledgements ≡ db.acknowledgements
      → db'.history ≡ db.history
      → IsConfined env db db'
  elsewhere alerts_are acks_are history_is = record {
    consistent = record {
      audited = record {
        recorded = rw (alerts_are, history_is) wf.audited.recorded;
        keys = rw alerts_are wf.audited.keys;
      };
      answers = rw (alerts_are, acks_are) wf.answers;
    };
    alerts = ap (foreign alert_table env) alerts_are;
  }

  -- A write of an alert, given what it makes of the answers.
  pub written :
      {fresh : Type 0} (a' : Alert) (w : Write alert_table env db db' a')
      → (fresh → IsNewKey alert_table env db)
      → NewFor alert_table env db db' a' fresh w
      → All (Agrees db'.acknowledgements) db'.alerts
      → IsConfined env db db'
  written a' w new_key is_fresh answers = record {
    consistent = record {
      audited = NewFor-IsAudited alert_table env db db' a' w new_key is_fresh wf.audited;
      answers = answers;
    };
    alerts = Write-isolated alert_table env db db' a' w;
  }

pub close-IsConfined :
    (env : Env) (db : Db) (id : ℕ) {db' : Db} {a' : Alert}
    → IsConsistent db
    → close_alert env db id ≡ ok (db', a')
    → IsConfined env db db'
unfolding close_alert save
close-IsConfined env db id {db'} {a'} wf h =
    let (_, _, h1) = >>=-eq-ok (require alert_close env db) _ h in
    let (a, is_a, h2) = >>=-eq-ok (alert_or_404 env db id) _ h1 in
    let a2 : Alert = record a { status = closed_alert } in
    let final = save alert_table env (session_of env) db a a2 in
    let found = get_in_org-IsFound alert_table (http 404 "Alert not found") env db id is_a in
    subst (IsConfined env db) (ok-pair final db' a2 a' h2).0 (
      written env db final wf {fresh = IsNewKey alert_table env db} a2
        (saved id (session_of env) a found (session_of-actor env)
          (record { same_key = refl; same_org = refl }) refl)
        (λ n. n) tt
        (overwrite-All (Agrees db.acknowledgements) (is_row alert_table a.id) a2 db.alerts
          (done refl) wf.answers))

-- The image of an alert is no part of it.
pub image-IsConfined :
    (env : Env) (max : ℕ) (db : Db) (id position : ℕ) (file : UploadFile) {db' : Db}
    → IsConsistent db
    → upload_image env max db id position file ≡ ok db'
    → IsConfined env db db'
unfolding upload_image
image-IsConfined env max db id position file {db'} wf h =
    let (_, _, h1) = >>=-eq-ok (require alert_create env db) _ h in
    let (a, _, h2) = >>=-eq-ok (alert_or_404 env db id) _ h1 in
    let (_, _, h3) =
      >>=-eq-ok
        (raise_if (not ((position == 1) || (position == 2))) (http 303 "Invalid image slot")) _
        h2 in
    let (_, _, h4) = >>=-eq-ok (raise_if (file.size == 0) (http 303 "Empty file")) _ h3 in
    let (_, _, h5) =
      >>=-eq-ok (raise_if (ltb max file.size) (http 303 "File exceeds maximum allowed size")) _
        h4 in
    subst (IsConfined env db) (ok-injective h5) (elsewhere env db _ wf refl refl refl)

pub deleted-IsConfined :
    (env : Env) (db : Db)
    → IsConsistent db
    → (image : Option AlertImage) → IsConfined env db (deleted db image)
deleted-IsConfined env db wf none = elsewhere env db db wf refl refl refl
deleted-IsConfined env db wf (some image) = elsewhere env db _ wf refl refl refl

pub read-IsConfined :
    (env : Env) (db : Db) (id : ℕ) {db' : Db} {n : Notification}
    → IsConsistent db
    → mark_read env db id ≡ ok (db', n)
    → IsConfined env db db'
unfolding mark_read
read-IsConfined env db id {db'} {n} wf h =
    let (_, _, h1) = >>=-eq-ok (require alert_read env db) _ h in
    let (m, _, h2) =
      >>=-eq-ok
        (or_raise (first (λ n. n.id == id && n.user_id == env.user.id) db.notifications)
          (http 404 "Notification not found"))
        _ h1 in
    subst (IsConfined env db) (ok-pair _ db' _ n h2).0 (elsewhere env db _ wf refl refl refl)
