-- ===== src/Routes/Capas/Verification.antt =====
-- What the columns of a verification say of a CAPA, after any request of app/api/routes/capas.py.
use cron_qms.Prelude.{◌≡◌, ◌≢◌, ◌⊎◌, none, arith, ok, All, first-All}
use cron_qms.Models.Capa.{Capa, closed, failed_effectiveness, pending, effective, ineffective}
use cron_qms.Db.{Db, Env}
use cron_qms.Services.CapaWorkflow
use cron_qms.Services.CapaWorkflow.{allowed, apply_status_transition, verify_effectiveness}
use cron_qms.Routes.Scoped.{is_row}
use cron_qms.Routes.Scoped.Writes.{Write-All, get_in_org-IsFound}
use cron_qms.Routes.Tables.{capa_table}
use cron_qms.Routes.Capas.{Request, handle}
use cron_qms.Routes.Capas.Effects.{
  IsNew, IsEdit, Change, edited, moved, judged, reopened, given_up, Origin, created, changed,
  missing, handle-Effect,
}

-- A closed CAPA was found effective and a failed one ineffective, with a verifier and a date; every
-- other CAPA has no verification.
pub record IsVerified (c : Capa) : Type 0 where
  pub closed_is_effective : c.status ≡ closed → c.verification_outcome ≡ effective
  pub failed_is_ineffective : c.status ≡ failed_effectiveness → c.verification_outcome ≡ ineffective
  pub has_evidence :
      (c.status ≡ closed) ⊎ (c.status ≡ failed_effectiveness)
      → (c.verified_by ≢ none) × (c.verification_date ≢ none)
  pub open_is_pending :
      c.status ≢ closed
      → c.status ≢ failed_effectiveness
      → (c.verification_outcome ≡ pending) × (c.verified_by ≡ none) × (c.verification_date ≡ none)

IsNew-IsVerified : {env : Env} {c : Capa} → IsNew env c → IsVerified c
IsNew-IsVerified n = ground arith

edit-IsVerified : {c c' : Capa} → IsEdit c c' → IsVerified c → IsVerified c'
edit-IsVerified e v = ground arith

Change-IsVerified : {env : Env} (c c' : Capa) → Change env c c' → IsVerified c → IsVerified c'
unfolding allowed apply_status_transition verify_effectiveness CapaWorkflow.reopen
    CapaWorkflow.cancel
Change-IsVerified c c' (edited e) v = edit-IsVerified e v
Change-IsVerified c c' (moved s h) v = ground arith
Change-IsVerified c c' (judged db outcome given reason db' h) v = ground arith
Change-IsVerified c c' (reopened db reason db' h) v = ground arith
Change-IsVerified c c' (given_up db reason db' h) v = ground arith

-- Every request that succeeds keeps the verification columns of all the CAPAs of the table true,
-- if they were true before: a closed CAPA was found effective and a failed one ineffective, both
-- with a verifier and a date, and every other CAPA has the outcome Pending, no verifier and no date.
pub handle-IsVerified :
    (env : Env) (db : Db) (r : Request) {db' : Db} {c' : Capa}
    → handle env db r ≡ ok (db', c')
    → All IsVerified db.capas
    → All IsVerified db'.capas
handle-IsVerified env db r {db'} {c'} h all =
    let (writes, origin) = handle-Effect env db r h in
    Write-All capa_table env db db' c' IsVerified all (written origin) writes
  where
    written : Origin env db c' → IsVerified c'
    written (created n) = IsNew-IsVerified n
    written (changed id c found change) =
        let is_found = get_in_org-IsFound capa_table missing env db id found in
        Change-IsVerified c c' change
          (first-All IsVerified (is_row capa_table c.id) db.capas all is_found.found)
