-- ===== src/Routes/Events/Trail.antt =====
-- The audit trail of the events, written by app/core/audit.py on every commit of
-- app/api/routes/events.py.
use cron_qms.Prelude.{◌≡◌, List, ◌++◌, ok, All}
use cron_qms.Models.Event.{Event}
use cron_qms.Models.History.{HistoryRow}
use cron_qms.Db.{Db, Env}
use cron_qms.Routes.Scoped.Trail.{IsBy, IsNewKey, IsAudited, Write-appends, Write-IsAudited}
use cron_qms.Routes.Tables.{event_table}
use cron_qms.Routes.Events.{Request, handle}
use cron_qms.Routes.Events.Effects.{handle-Write}

-- A request that succeeds only appends to the trail, and every row that it appends names its
-- caller, the event that it returns, and the time of the request.
pub history_appended :
    (env : Env) (db : Db) (r : Request) {db' : Db} {e : Event}
    → handle env db r ≡ ok (db', e)
    → (rows : List HistoryRow) × (db'.history ≡ db.history ++ rows)
      × All (IsBy event_table env e) rows
history_appended env db r {db'} {e} h =
    Write-appends event_table env db db' e (handle-Write env db r h)

-- Every request that succeeds keeps the trail complete: replaying the rows of an event gives the
-- present value of each of its audited columns, if it did so before and a new event gets a new key.
pub handle-IsAudited :
    (env : Env) (db : Db) (r : Request) {db' : Db} {e : Event}
    → IsNewKey event_table env db
    → IsAudited event_table db
    → handle env db r ≡ ok (db', e)
    → IsAudited event_table db'
handle-IsAudited env db r {db'} {e} new_key audited h =
    Write-IsAudited event_table env db db' e new_key audited (handle-Write env db r h)
