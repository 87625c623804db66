-- ===== src/Routes/Capas/Scope.antt =====
-- The organization and the audit trail in app/api/routes/capas.py.
use cron_qms.Prelude.{◌≡◌, List, ◌++◌, ok, All}
use cron_qms.Models.Capa.{Capa}
use cron_qms.Models.History.{HistoryRow}
use cron_qms.Db.{Db, Env}
use cron_qms.Routes.Scoped.Writes.{foreign, Write-isolated}
use cron_qms.Routes.Scoped.Trail.{IsBy, IsNewKey, IsAudited, Write-appends, Write-IsAudited}
use cron_qms.Routes.Tables.{capa_table}
use cron_qms.Routes.Capas.{Request, handle}
use cron_qms.Routes.Capas.Effects.{handle-Effect}

-- A request that succeeds leaves the CAPAs of other organizations as they are, keeps the trail of
-- CAPAs complete, if it was complete before and a new CAPA gets a new key, and appends to it only
-- rows that name its caller and the CAPA that it returns.
pub capa_request_scope :
    (env : Env) (db : Db) (r : Request) {db' : Db} {c : Capa}
    → IsNewKey capa_table env db
    → IsAudited capa_table db
    → handle env db r ≡ ok (db', c)
    → (foreign capa_table env db'.capas ≡ foreign capa_table env db.capas)
      × IsAudited capa_table db'
      × ((rows : List HistoryRow) × (db'.history ≡ db.history ++ rows)
          × All (IsBy capa_table env c) rows)
capa_request_scope env db r {db'} {c} new_key audited h =
    let writes = (handle-Effect env db r h).0 in
    (
      Write-isolated capa_table env db db' c writes,
      Write-IsAudited capa_table env db db' c new_key audited writes,
      Write-appends capa_table env db db' c writes,
    )
