-- ===== src/Services/EventWorkflow.antt =====
-- app/services/event_workflow.py. A function that mutates an event returns the new event; a
-- WorkflowError is an `http` error with the same status code and message.
pub mod Rules
pub mod Lifecycle
use Prim.Native.String.{◌++◌}
use cron_qms.Prelude.{
  ℕ, String, Bool, true, false, not, ◌||◌, Option, none, some, List, is_some_of, ◌==◌, Result, ok,
  err, http, raise_if, ◌>>=◌, ◌>>◌,
}
use cron_qms.Models.User.{User}
use cron_qms.Models.Event.{EventStatus, opened, in_progress, resolved, closed, status_value, Event}
use cron_qms.Core.Audit.{Session, set_audit_reason}

-- `new_status in ALLOWED_TRANSITIONS[current]`
unfoldable pub allowed : EventStatus → EventStatus → Bool
allowed opened in_progress = true
allowed in_progress resolved = true
allowed in_progress opened = true
allowed resolved in_progress = true
allowed _ _ = false

abbrev pub is_resolved : EventStatus → Bool
is_resolved resolved = true
is_resolved _ = false

abbrev pub is_closed : EventStatus → Bool
is_closed closed = true
is_closed _ = false

invalid_transition : EventStatus → EventStatus → String
invalid_transition current new_status =
    "Invalid status transition from "
    ++ status_value current
    ++ " to "
    ++ status_value new_status
    ++ ". Use close/reopen for closure."

unfoldable pub apply_status_transition : Event → EventStatus → Result Event
unfolding allowed invalid_transition
apply_status_transition event new_status = do
  raise_if (not (allowed event.status new_status))
      (http 400 (invalid_transition event.status new_status))
  ok (record event { status = new_status })

unfoldable pub approve_closure : Event → User → ℕ → Result Event
approve_closure event actor now = do
  raise_if (not (is_resolved event.status)) (http 400 "Only a Resolved event can be closed")
  raise_if ((actor.id == event.reported_by) || is_some_of actor.id event.assigned_to)
      (http 403 "Closure must be approved by someone other than the reporter or investigator")
  ok (record event { status = closed; closed_by = some actor.id; closed_at = some now })

unfoldable pub reopen : Session → Event → String → Result (Session × Event)
unfolding set_audit_reason
reopen db event reason = do
  raise_if (not (is_closed event.status)) (http 400 "Only a Closed event can be reopened")
  ok (
    set_audit_reason db (some reason),
    record event { status = opened; closed_by = none; closed_at = none },
  )
