-- ===== src/Services/TrainingWorkflow/Expiry.antt =====
-- When a certification by app/services/training_workflow.py expires, read by the properties of
-- app/models/training.py.
use cron_qms.Prelude.{ℕ, zero, String, ◌≡◌, ◌⊎◌, refl, inl, inr, none, some, ok}
use cron_qms.Dates.{Date}
use cron_qms.Models.Training.{
  TrainingCourse, TrainingRecord, trained, stored, is_expired, effective_status,
}
use cron_qms.Services.TrainingWorkflow.{expiry, certify_record}

module _ (r : TrainingRecord) (course : TrainingCourse) (trainer_id : ℕ) (acknowledgment : String)
    (when today : Date) where
  -- A certification without a given date, for a course without a period or with the period 0,
  -- succeeds, is dated today and never expires, also where the record had an expiry date before.
  pub certify_record-effective_status :
      (day : Date)
      → (course.recertification_period_months ≡ none)
        ⊎ (course.recertification_period_months ≡ some zero)
      → (r' : TrainingRecord) × (certify_record r course trainer_id acknowledgment none today
          ≡ ok r')
        × (effective_status r' day ≡ stored trained)
        × (r'.trained_date ≡ some today)
  unfolding certify_record expiry is_expired effective_status
  certify_record-effective_status day period = (
    record r {
      status = trained;
      trained_date = some today;
      trained_by = some trainer_id;
      trainee_acknowledgment = some acknowledgment;
      expiry_date = none;
    },
    elim period [ inl e ↦ rw e refl | inr e ↦ rw e refl ],
    refl,
    refl,
  )
