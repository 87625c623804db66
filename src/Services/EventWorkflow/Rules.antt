-- ===== src/Services/EventWorkflow/Rules.antt =====
-- What each rule of app/services/event_workflow.py allows and does.
use cron_qms.Prelude.{
  ℕ, String, ◌≡◌, refl, inl, inr, ◌≢◌, ◌↔◌, true, none, some, arith, Result, ok, Bool-cases,
}
use cron_qms.Models.User.{User}
use cron_qms.Models.Event.{EventStatus, opened, in_progress, resolved, closed, Event}
use cron_qms.Core.Audit.{Session}
use cron_qms.Services.EventWorkflow.{allowed, apply_status_transition, approve_closure, reopen}

-- The arrows of the workflow's diagram that are not privileged.
infix 40 ◌⟶◌
pub data ◌⟶◌ : EventStatus → EventStatus → Type 0 where
  start : opened ⟶ in_progress
  resolve : in_progress ⟶ resolved
  put_back : in_progress ⟶ opened
  resume : resolved ⟶ in_progress

ruleset arrows = (start, resolve, put_back, resume)

allowed→⟶ : (a b : EventStatus) → allowed a b ≡ true → a ⟶ b
unfolding allowed
allowed→⟶ opened in_progress h = start
allowed→⟶ in_progress resolved h = resolve
allowed→⟶ in_progress opened h = put_back
allowed→⟶ resolved in_progress h = resume
allowed→⟶ a b h = cc

⟶→allowed : {a b : EventStatus} → a ⟶ b → allowed a b ≡ true
unfolding allowed
⟶→allowed start = refl
⟶→allowed resolve = refl
⟶→allowed put_back = refl
⟶→allowed resume = refl

-- No arrow touches a closed event.
pub ⟶-ne-closed : {a b : EventStatus} → a ⟶ b → (a ≢ closed) × (b ≢ closed)
⟶-ne-closed start = (λ e. cc, λ e. cc)
⟶-ne-closed resolve = (λ e. cc, λ e. cc)
⟶-ne-closed put_back = (λ e. cc, λ e. cc)
⟶-ne-closed resume = (λ e. cc, λ e. cc)

-- A status update is accepted exactly along an arrow of the diagram (open and resolved each only
-- from and to in progress), and then changes the status alone.
pub apply_status_transition_iff :
    (e : Event) (s : EventStatus) (e' : Event)
    → (apply_status_transition e s ≡ ok e') ↔ ((e.status ⟶ s) × (e' ≡ record e { status = s }))
unfolding apply_status_transition
apply_status_transition_iff e s e' = (
  λ h. elim (Bool-cases (allowed e.status s)) [
    | inl y ↦ (allowed→⟶ e.status s y, ground arith)
    | inr n ↦ absurd (ground arith)
  ],
  λ h. rw (⟶→allowed h.0, h.1),
)

module _ (e : Event) (actor : User) (now : ℕ) where
  -- A closure is accepted exactly if the event is resolved and the approver is neither its reporter
  -- nor its investigator; it then records the approver and the time.
  pub approve_closure_iff :
      (e' : Event)
      → (approve_closure e actor now ≡ ok e') ↔ (
          (e.status ≡ resolved)
          × (actor.id ≢ e.reported_by)
          × (e.assigned_to ≢ some actor.id)
          × (e' ≡ record e { status = closed; closed_by = some actor.id; closed_at = some now }))
  unfolding approve_closure
  approve_closure_iff e' = (λ h. ground arith, λ h. ground arith)

-- A reopening is accepted exactly for a closed event; it hands the reason to the audit trail, opens
-- the event and clears the closure.
pub reopen_iff :
    (db : Session) (e : Event) (reason : String) (db' : Session) (e' : Event)
    → ◌≡◌ {A = Result (Session × Event)} (reopen db e reason) (ok (db', e')) ↔ (
        (e.status ≡ closed)
        × (db' ≡ record db { reason = some reason })
        × (e' ≡ record e { status = opened; closed_by = none; closed_at = none }))
unfolding reopen
reopen_iff db e reason db' e' = (λ h. ground arith, λ h. ground arith)
