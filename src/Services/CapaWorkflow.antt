-- ===== src/Services/CapaWorkflow.antt =====
-- app/services/capa_workflow.py. A function that mutates a CAPA returns the new CAPA; a
-- WorkflowError is an `http` error with the same status code and message.
pub mod Rules
pub mod Lifecycle
use Prim.Native.String.{◌++◌}
use cron_qms.Prelude.{
  ℕ, String, Bool, true, false, not, ◌&&◌, ◌||◌, Option, none, some, List, [], ◌∷◌, is_some_of,
  is_none, or_else, if◌then◌else◌, Result, ok, err, http, raise_if, ◌>>=◌, ◌>>◌,
}
use cron_qms.Dates.{Date}
use cron_qms.Text.{is_empty, strip}
use cron_qms.Models.User.{User}
use cron_qms.Models.Capa.{
  CapaStatus, draft, investigation, action_plan, implementation, effectiveness_check, closed,
  failed_effectiveness, cancelled, status_value, VerificationOutcome, pending, effective,
  ineffective, Capa,
}
use cron_qms.Core.Audit.{Session, set_audit_reason}

-- `new_status in ALLOWED_TRANSITIONS[current]`
unfoldable pub allowed : CapaStatus → CapaStatus → Bool
allowed draft investigation = true
allowed investigation action_plan = true
allowed action_plan implementation = true
allowed action_plan investigation = true
allowed implementation effectiveness_check = true
allowed implementation action_plan = true
allowed effectiveness_check implementation = true
allowed _ _ = false

-- `TERMINAL_STATUSES`
abbrev pub is_terminal : CapaStatus → Bool
is_terminal closed = true
is_terminal failed_effectiveness = true
is_terminal cancelled = true
is_terminal _ = false

-- `REOPENABLE_STATUSES`
abbrev pub is_reopenable : CapaStatus → Bool
is_reopenable closed = true
is_reopenable failed_effectiveness = true
is_reopenable _ = false

-- `_blank`
unfoldable pub blank : Option String → Bool
blank none = true
blank (some s) = is_empty s || is_empty (strip s)

abbrev is_nil {ℓ} : {A : Type ℓ} → List A → Bool
is_nil [] = true
is_nil (_ ∷ _) = false

unfoldable pub gate_draft_to_investigation : Capa → Option String
gate_draft_to_investigation capa =
    if blank capa.initiating_cause && is_nil capa.event_ids
    then some
        "An initiating cause is required before investigation: set initiating_cause or link at least one event."
    else none

unfoldable pub gate_investigation_to_action_plan : Capa → Option String
gate_investigation_to_action_plan capa =
    if blank capa.root_cause
    then some "A root cause is required before moving to the action plan."
    else none

unfoldable pub gate_action_plan_to_implementation : Capa → Option String
gate_action_plan_to_implementation capa =
    if blank capa.corrective_action && blank capa.preventive_action
    then some "A corrective or preventive action is required before implementation."
    else if is_none capa.owner_id
    then some "An owner is required before implementation."
    else if is_none capa.due_date
    then some "A due date is required before implementation."
    else none

unfoldable pub gate_implementation_to_effectiveness_check : Capa → Option String
gate_implementation_to_effectiveness_check capa =
    if blank capa.corrective_action && blank capa.preventive_action
    then some
        "A recorded corrective or preventive action is required before the effectiveness check."
    else none

-- `_GATES`: a transition without a gate has no error.
unfoldable pub gate : CapaStatus → CapaStatus → Capa → Option String
unfolding gate_draft_to_investigation gate_investigation_to_action_plan
    gate_action_plan_to_implementation gate_implementation_to_effectiveness_check
gate draft investigation capa = gate_draft_to_investigation capa
gate investigation action_plan capa = gate_investigation_to_action_plan capa
gate action_plan implementation capa = gate_action_plan_to_implementation capa
gate implementation effectiveness_check capa = gate_implementation_to_effectiveness_check capa
gate _ _ capa = none

invalid_transition : CapaStatus → CapaStatus → String
invalid_transition current new_status =
    "Invalid status transition from "
    ++ status_value current
    ++ " to "
    ++ status_value new_status
    ++ ". Use verify/reopen/cancel for terminal states."

abbrev raise_error : Option String → Result (Unit {0})
raise_error none = ok tt
raise_error (some error) = err (http 400 error)

unfoldable pub apply_status_transition : Capa → CapaStatus → Result Capa
unfolding invalid_transition
apply_status_transition capa new_status = do
  raise_if (not (allowed capa.status new_status))
      (http 400 (invalid_transition capa.status new_status))
  raise_error (gate capa.status new_status capa)
  ok (record capa { status = new_status })

abbrev is_effectiveness_check : CapaStatus → Bool
is_effectiveness_check effectiveness_check = true
is_effectiveness_check _ = false

abbrev is_pending : VerificationOutcome → Bool
is_pending pending = true
is_pending _ = false

-- The status that an outcome gives a CAPA
abbrev pub outcome_status : VerificationOutcome → CapaStatus → CapaStatus
outcome_status effective current = closed
outcome_status ineffective current = failed_effectiveness
outcome_status pending current = current

-- The date of today is the argument `today`.
unfoldable pub verify_effectiveness :
    Session
    → Capa
    → User
    → VerificationOutcome
    → Option Date
    → Option String
    → Date
    → Result (Session × Capa)
unfolding set_audit_reason
verify_effectiveness db capa actor outcome verification_date reason today = do
  raise_if (not (is_effectiveness_check capa.status))
      (http 400 "Only a CAPA in Effectiveness_Check can be verified")
  raise_if (is_some_of actor.id capa.owner_id)
      (http 403 "Effectiveness verification must be independent of the CAPA owner")
  raise_if (is_pending outcome) (http 400 "A verification outcome of Pending records nothing")
  ok (
    set_audit_reason db reason,
    record capa {
      verification_outcome = outcome;
      verification_date = some (or_else verification_date today);
      verified_by = some actor.id;
      status = outcome_status outcome capa.status;
    },
  )

unfoldable pub reopen : Session → Capa → String → Result (Session × Capa)
unfolding set_audit_reason
reopen db capa reason = do
  raise_if (not (is_reopenable capa.status)) (
      http 400
        "Only a Closed or Failed_Effectiveness CAPA can be reopened (Cancelled is not reopenable)")
  ok (
    set_audit_reason db (some reason),
    record capa {
      status = investigation;
      verification_outcome = pending;
      verification_date = none;
      verified_by = none;
    },
  )

unfoldable pub cancel : Session → Capa → String → Result (Session × Capa)
unfolding set_audit_reason
cancel db capa reason = do
  raise_if (is_terminal capa.status) (http 400 "A terminal CAPA cannot be cancelled")
  ok (set_audit_reason db (some reason), record capa { status = cancelled })
