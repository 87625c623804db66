-- ===== src/Services/TrainingWorkflow.antt =====
-- app/services/training_workflow.py. The date of today is the argument `today`.
pub mod Expiry
use cron_qms.Prelude.{ℕ, zero, suc, String, Option, none, some, or_else, Result, ok, ◌>>=◌}
use cron_qms.Dates.{Date, add_months}
use cron_qms.Models.Training.{TrainingCourse, TrainingRecord, trained}

-- A period of 0 months is none.
unfoldable pub expiry : Option ℕ → Date → Result (Option Date)
expiry none when = ok none
expiry (some zero) when = ok none
expiry (some (suc n)) when = do day ← add_months when (suc n); ok (some day)

unfoldable pub certify_record :
    TrainingRecord → TrainingCourse → ℕ → String → Option Date → Date → Result TrainingRecord
unfolding expiry
certify_record r course trainer_id acknowledgment trained_date today = do
  let when = or_else trained_date today
  until ← expiry course.recertification_period_months when
  ok (record r {
    status = trained;
    trained_date = some when;
    trained_by = some trainer_id;
    trainee_acknowledgment = some acknowledgment;
    expiry_date = until;
  })
