-- ===== src/Routes/Alerts/IssueEffects.antt =====
-- What issuing and acknowledging an alert do to the alerts and their answers.
use cron_qms.Prelude.{
  overwrite, ℕ, ◌≡◌, refl, ap, subst, true, not, ◌==◌, String, Option, some, List, [], ◌∷◌, ◌++◌,
  All-append, arith, Result, ok, http, raise_if, >>=-eq-ok, ok-pair, ltb, first-All,
}
use cron_qms.Models.Alert.{Alert, AlertAcknowledgement}
use cron_qms.Core.Permissions.{alert_acknowledge}
use cron_qms.Db.{Db, Env, session_of}
use cron_qms.Routes.Access.{require}
use cron_qms.Routes.Scoped.{is_row, save, insert}
use cron_qms.Routes.Scoped.Writes.{
  IsFound, SameOwner, inserted, saved, session_of-actor, get_in_org-IsFound, Write-isolated,
}
use cron_qms.Routes.Scoped.Trail.{saved-IsAudited}
use cron_qms.Routes.Tables.More.{alert_table}
use cron_qms.Routes.Documents.Versions.{UploadFile}
use cron_qms.Routes.Alerts.{
  AlertForm, alert_or_404, groups_of, is_nil, own_organization, expiry_or, default_expiry,
  recipient_ids, notify, new_alert, issue_alert,
}
use cron_qms.Routes.Alerts.Acknowledgements.{
  new_acknowledgement, after_acknowledgement, acknowledge,
}
use cron_qms.Routes.Alerts.Returned.{Agrees, agrees-AreAgreed}
use cron_qms.Routes.Alerts.Answers.{agrees, new-waits, after-agrees, acknowledged-agrees}
use cron_qms.Routes.Alerts.Effects.{IsConsistent, IsNewAlert, IsConfined, written}

issued :
    (env : Env) (db : Db) (a : Alert)
    → IsConsistent db
    → IsNewAlert env db
    → env.user.organization_id ≡ some a.organization_id
    → a.id ≡ env.new_id
    → agrees db.acknowledgements a ≡ true
    → IsConfined env db (insert alert_table env (session_of env) db a)
unfolding insert
issued env db a wf is_new own is_key waits =
    written env db (insert alert_table env (session_of env) db a) wf {fresh = IsNewAlert env db} a
      (inserted own is_key refl) (λ n. n.new_key) is_new
      (All-append (Agrees db.acknowledgements) db.alerts (a ∷ []) wf.answers
        ((agrees-AreAgreed db.acknowledgements (a ∷ [])).0 (waits, tt)))

pub issue-IsConfined :
    (env : Env) (first_key : ℕ) (db : Db) (event_id : Option ℕ) (p : AlertForm) {db' : Db}
    {a : Alert}
    → IsConsistent db
    → IsNewAlert env db
    → issue_alert env first_key db event_id p ≡ ok (db', a)
    → IsConfined env db db'
unfolding issue_alert new_alert insert
issue-IsConfined env first_key db event_id p {db'} {a} wf is_new h =
    let groups = groups_of env db p.recipient_group_ids in
    let (_, _, h1) =
      >>=-eq-ok (raise_if (is_nil groups) (http 303 "Select at least one recipient group.")) _ h in
    let (o, own, h2) = >>=-eq-ok (own_organization env) _ h1 in
    let (due, _, h3) = >>=-eq-ok p.response_due_date _ h2 in
    let (asked, _, h4) = >>=-eq-ok p.expires_at _ h3 in
    let (expires, _, h5) = >>=-eq-ok (expiry_or asked (default_expiry env db o)) _ h4 in
    let n = new_alert env event_id o p groups due expires in
    let told = notify first_key n (recipient_ids groups) in
    let after = insert alert_table env (session_of env) db n in
    let final : Db = record after { notifications = db.notifications ++ told } in
    let mine : env.user.organization_id ≡ some o = ground arith in
    let confined =
      issued env db n wf is_new mine refl
        (ap not (new-waits n db.acknowledgements is_new.unanswered)) in
    subst (IsConfined env db) (ok-pair final db' n a h5).0 (record {
      consistent = record {
        audited = record {
          recorded = confined.consistent.audited.recorded;
          keys = confined.consistent.audited.keys;
        };
        answers = confined.consistent.answers;
      };
      alerts = confined.alerts;
    })

after-SameOwner :
    (a : Alert) (rows : List AlertAcknowledgement)
    → SameOwner alert_table a (after_acknowledgement a rows)
unfolding after_acknowledgement
after-SameOwner a rows = record { same_key = ground arith; same_org = ground arith }

of_alert :
    (env : Env) (alert_id : ℕ) (file : UploadFile) (g : Option ℕ) (note : String)
    → (new_acknowledgement env alert_id file g note).alert_id ≡ alert_id
unfolding new_acknowledgement
of_alert env alert_id file g note = refl

pub sign-IsConfined :
    (env : Env) (max : ℕ) (db : Db) (id : ℕ) (file : UploadFile) (group : Result (Option ℕ))
    (note : String) {db' : Db} {a' : Alert}
    → IsConsistent db
    → acknowledge env max db id file group note ≡ ok (db', a')
    → IsConfined env db db'
unfolding acknowledge save
sign-IsConfined env max db id file group note {db'} {a'} wf h =
    let (_, _, h1) = >>=-eq-ok (require alert_acknowledge env db) _ h in
    let (a, is_a, h2) = >>=-eq-ok (alert_or_404 env db id) _ h1 in
    let (_, _, h3) = >>=-eq-ok (raise_if (file.size == 0) (http 303 "Empty file")) _ h2 in
    let (_, _, h4) =
      >>=-eq-ok (raise_if (ltb max file.size) (http 303 "File exceeds maximum allowed size")) _
        h3 in
    let (g, _, h5) = >>=-eq-ok group _ h4 in
    let k = new_acknowledgement env a.id file g note in
    let rows = db.acknowledgements ++ k ∷ [] in
    let between : Db = record db { acknowledgements = rows } in
    let a2 = after_acknowledgement a rows in
    let final = save alert_table env (session_of env) between a a2 in
    let found = get_in_org-IsFound alert_table (http 404 "Alert not found") env db id is_a in
    let there : IsFound alert_table env between id a = record {
      asked = found.asked;
      found = found.found;
      mine = found.mine;
    } in
    let same = after-SameOwner a rows in
    let answers = (agrees-AreAgreed db.acknowledgements db.alerts).1 wf.answers in
    let agreed =
      first-All (λ x. agrees db.acknowledgements x ≡ true) (is_row alert_table a.id) db.alerts
        answers found.found in
    subst (IsConfined env db) (ok-pair final db' a2 a' h5).0 (record {
      consistent = record {
        audited =
            saved-IsAudited alert_table env between final a2 (session_of env) id a there same
              (record { recorded = wf.audited.recorded; keys = wf.audited.keys }) refl;
        answers = (agrees-AreAgreed rows (overwrite (is_row alert_table a.id) a2 db.alerts)).0 (
            acknowledged-agrees a a2 k db.acknowledgements db.alerts found.found
              (of_alert env a.id file g note) (after-agrees a k db.acknowledgements agreed)
              wf.audited.keys answers);
      };
      alerts =
          Write-isolated alert_table env between final a2
            (saved id (session_of env) a there (session_of-actor env) same refl);
    })
