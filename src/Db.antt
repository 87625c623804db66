-- ===== src/Db.antt =====
-- The database as the request handlers see it: the tables, and what belongs to one request. A
-- handler that raises never reaches its commit, so that it leaves the tables as they were; its
-- result has then no database.
use cron_qms.Prelude.{ℕ, List, ◌≡◌, ap, ◌∙◌, Result, ok, err, some, ok-injective, ◌>>=◌, >>=-eq-ok}
use cron_qms.Dates.{Date}
use cron_qms.Models.User.{User, RoleDefinition}
use cron_qms.Models.Event.{Event}
use cron_qms.Models.Capa.{Capa}
use cron_qms.Models.Document.{Document, DocumentVersion}
use cron_qms.Models.Change.{ChangeRequest, ChangeImpact, ChangeAction}
use cron_qms.Models.Audit.{Audit, AuditChecklistItem, AuditFinding}
use cron_qms.Models.Training.{Employee, TrainingCourse, TrainingRecord}
use cron_qms.Models.Alert.{AssigneeGroup, Alert, AlertImage, AlertAcknowledgement, Notification}
use cron_qms.Models.Organization.{OrgSetting}
use cron_qms.Models.History.{HistoryRow}
use cron_qms.Core.Audit.{Session, set_audit_actor}

pub record Db : Type 0 where
  pub users : List User
  pub roles : List RoleDefinition
  pub events : List Event
  pub capas : List Capa
  pub documents : List Document
  pub versions : List DocumentVersion
  pub changes : List ChangeRequest
  pub impacts : List ChangeImpact
  pub actions : List ChangeAction
  pub audits : List Audit
  pub items : List AuditChecklistItem
  pub findings : List AuditFinding
  pub employees : List Employee
  pub courses : List TrainingCourse
  pub records : List TrainingRecord
  pub groups : List AssigneeGroup
  pub alerts : List Alert
  pub images : List AlertImage
  pub acknowledgements : List AlertAcknowledgement
  pub notifications : List Notification
  pub settings : List OrgSetting
  pub history : List HistoryRow

-- The authenticated user of a request, the clock (`date.today()` and `datetime.utcnow()`), and the
-- primary key that the database gives to a row that the request inserts.
pub record Env : Type 0 where
  pub user : User
  pub today : Date
  pub now : ℕ
  pub new_id : ℕ

-- `get_current_user` makes the user the actor of the session.
unfoldable pub session_of : Env → Session
unfolding set_audit_actor
session_of env = set_audit_actor (some env.user.id)

-- The database after a request: an exception undoes what was not committed.
abbrev pub after : Db → Result Db → Db
after db (ok new) = new
after db (err _) = db

-- The database after a handler that also returns the row that it wrote.
abbrev pub wrote_to {ℓ} : {A : Type ℓ} → Result (Db × A) → Result Db
wrote_to answer = answer >>= λ r. ok r.0

pub wrote_to-ok :
    {A : Type 0} (answer : Result (Db × A)) {db' : Db}
    → wrote_to answer ≡ ok db'
    → (a : A) × (answer ≡ ok (db', a))
wrote_to-ok answer h =
    let (r, is, first_is) = >>=-eq-ok answer (λ r. ok r.0) h in
    (r.1, is ∙ ap (λ d. ok (d, r.1)) (ok-injective first_is))
