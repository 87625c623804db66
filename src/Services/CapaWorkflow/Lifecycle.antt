-- ===== src/Services/CapaWorkflow/Lifecycle.antt =====
-- Histories of one CAPA under the rules of app/services/capa_workflow.py.
use cron_qms.Prelude.{
  kept, String, ◌≡◌, ◌⊎◌, Bool, true, false, Option, List, arith, Result, ok, ◌>>=◌, run, visits,
  run-visits, visits-before,
}
use cron_qms.Dates.{Date}
use cron_qms.Models.User.{User}
use cron_qms.Models.Capa.{
  CapaStatus, draft, investigation, action_plan, implementation, effectiveness_check, closed,
  failed_effectiveness, VerificationOutcome, Capa,
}
use cron_qms.Core.Audit.{Session}
use cron_qms.Services.CapaWorkflow.{apply_status_transition, verify_effectiveness, allowed}
use cron_qms.Services.CapaWorkflow

-- The calls of the four rules.
pub data Action : Type 0 where
  advance : CapaStatus → Action
  verify : User → VerificationOutcome → Option Date → Option String → Date → Action
  reopen cancel : String → Action

unfoldable pub perform : Session → Capa → Action → Result Capa
unfolding apply_status_transition verify_effectiveness CapaWorkflow.reopen CapaWorkflow.cancel
perform db c (advance status) = apply_status_transition c status
perform db c (verify actor outcome given reason today) = do
  r ← verify_effectiveness db c actor outcome given reason today
  ok r.1
perform db c (reopen reason) = do r ← CapaWorkflow.reopen db c reason; ok r.1
perform db c (cancel reason) = do r ← CapaWorkflow.cancel db c reason; ok r.1

-- The stages, and the stages from one of them on.
abbrev pub is_investigation : Capa → Bool
is_investigation c = elim c.status [ investigation ↦ true | _ ↦ false ]

abbrev pub is_action_plan : Capa → Bool
is_action_plan c = elim c.status [ action_plan ↦ true | _ ↦ false ]

abbrev pub is_implementation : Capa → Bool
is_implementation c = elim c.status [ implementation ↦ true | _ ↦ false ]

abbrev pub is_check : Capa → Bool
is_check c = elim c.status [ effectiveness_check ↦ true | _ ↦ false ]

abbrev pub is_judged : Capa → Bool
is_judged c = elim c.status [ closed ↦ true | failed_effectiveness ↦ true | _ ↦ false ]

abbrev from_implementation : Capa → Bool
from_implementation c = elim c.status [
  | implementation ↦ true
  | effectiveness_check ↦ true
  | closed ↦ true
  | failed_effectiveness ↦ true
  | _ ↦ false
]

abbrev from_action_plan : Capa → Bool
from_action_plan c = elim c.status [
  | action_plan ↦ true
  | implementation ↦ true
  | effectiveness_check ↦ true
  | closed ↦ true
  | failed_effectiveness ↦ true
  | _ ↦ false
]

module _ (db : Session) where
  unfoldable pub step : Capa → Action → Capa
  step c a = kept c (perform db c a)

  -- Each stage is only entered from the one before it, or from a later one.
  abbrev Entered : (Capa → Bool) → (Capa → Bool) → Type 0
  Entered stage before =
      (c : Capa) (a : Action) → stage (step c a) ≡ true → (stage c ≡ true) ⊎ (before c ≡ true)

  judged_after_check : Entered is_judged is_check
  unfolding step perform allowed
  judged_after_check c (advance status) h = ground arith
  judged_after_check c (verify actor outcome given reason today) h = ground arith
  judged_after_check c (reopen reason) h = ground arith
  judged_after_check c (cancel reason) h = ground arith

  check_after_implementation : Entered is_check is_implementation
  unfolding step perform allowed
  check_after_implementation c (advance status) h = ground arith
  check_after_implementation c (verify actor outcome given reason today) h = ground arith
  check_after_implementation c (reopen reason) h = ground arith
  check_after_implementation c (cancel reason) h = ground arith

  implementation_after_plan : Entered from_implementation is_action_plan
  unfolding step perform allowed
  implementation_after_plan c (advance status) h = ground arith
  implementation_after_plan c (verify actor outcome given reason today) h = ground arith
  implementation_after_plan c (reopen reason) h = ground arith
  implementation_after_plan c (cancel reason) h = ground arith

  plan_after_investigation : Entered from_action_plan is_investigation
  unfolding step perform allowed
  plan_after_investigation c (advance status) h = ground arith
  plan_after_investigation c (verify actor outcome given reason today) h = ground arith
  plan_after_investigation c (reopen reason) h = ground arith
  plan_after_investigation c (cancel reason) h = ground arith

  -- A draft that ends closed or failed, whatever is done to it by these rules, passed its investigation, its action plan, its
  -- implementation and its effectiveness check on the way.
  pub judged_after_stages :
      (c : Capa) (actions : List Action)
      → c.status ≡ draft
      → is_judged (run step c actions) ≡ true
      → (visits step is_investigation c actions ≡ true)
        × (visits step is_action_plan c actions ≡ true)
        × (visits step is_implementation c actions ≡ true)
        × (visits step is_check c actions ≡ true)
  judged_after_stages c actions start h =
      let judged = run-visits step is_judged c actions h in
      let late = run-visits step from_implementation c actions (ground arith) in
      let later = run-visits step from_action_plan c actions (ground arith) in
      let a = visits-before step is_judged is_check judged_after_check c actions judged in
      let checked : visits step is_check c actions ≡ true = ground arith in
      let b =
        visits-before step is_check is_implementation check_after_implementation c actions
          checked in
      let d =
        visits-before step from_implementation is_action_plan implementation_after_plan c actions
          late in
      let e =
        visits-before step from_action_plan is_investigation plan_after_investigation c actions
          later in
      (ground arith, ground arith, ground arith, checked)
