-- ===== src/Services/EventWorkflow/Lifecycle.antt =====
-- Histories of one event under the rules of app/services/event_workflow.py.
use cron_qms.Prelude.{
  kept, kept_cases, ℕ, String, ◌≡◌, refl, sym, subst, ◌⊎◌, ◌≢◌, Bool, true, false, none, some, List,
  arith, Result, ok, ◌>>=◌, run, visits, run_induction, run-visits, visits-before,
}
use cron_qms.Models.User.{User}
use cron_qms.Models.Event.{EventStatus, opened, in_progress, resolved, closed, Event}
use cron_qms.Core.Audit.{Session}
use cron_qms.Services.EventWorkflow.{apply_status_transition, approve_closure}
use cron_qms.Services.EventWorkflow
use cron_qms.Services.EventWorkflow.Rules.{
  ⟶-ne-closed, apply_status_transition_iff, approve_closure_iff,
}

-- The calls of the three rules.
pub data Action : Type 0 where
  advance : EventStatus → Action
  close : User → ℕ → Action
  reopen : Session → String → Action

unfoldable pub perform : Event → Action → Result Event
unfolding apply_status_transition approve_closure EventWorkflow.reopen
perform e (advance status) = apply_status_transition e status
perform e (close actor now) = approve_closure e actor now
perform e (reopen session reason) = do r ← EventWorkflow.reopen session e reason; ok r.1

unfoldable pub step : Event → Action → Event
step e a = kept e (perform e a)

-- A closed event names a closer who is neither its reporter nor its investigator, and an event that
-- is not closed names none.
pub record IsIndependent (e : Event) : Type 0 where
  pub named : e.status ≡ closed → e.closed_by ≢ none
  pub not_reporter : (u : ℕ) → e.closed_by ≡ some u → u ≢ e.reported_by
  pub not_investigator : (u : ℕ) → e.closed_by ≡ some u → e.assigned_to ≢ some u
  pub cleared : e.status ≢ closed → (e.closed_by ≡ none) × (e.closed_at ≡ none)

perform-reopen :
    (e : Event) (session : Session) (reason : String) {e' : Event}
    → perform e (reopen session reason) ≡ ok e'
    → (e.status ≡ closed) × (e' ≡ record e { status = opened; closed_by = none; closed_at = none })
unfolding perform
perform-reopen e session reason p = ground arith

perform-IsIndependent :
    (e : Event) (a : Action)
    → IsIndependent e
    → (e' : Event) → perform e a ≡ ok e'
    → IsIndependent e'
perform-IsIndependent e (advance status) h e' p =
    let (arrow, is) = (apply_status_transition_iff e status e').0 (unfold perform in p) in
    let (from_open, to_open) = ⟶-ne-closed arrow in
    subst IsIndependent (sym is) (record {
      named = λ c. absurd (to_open c);
      not_reporter = h.not_reporter;
      not_investigator = h.not_investigator;
      cleared = λ _. h.cleared from_open;
    })
perform-IsIndependent e (close actor now) h e' p =
    let (_, reporter, investigator, is) =
      (approve_closure_iff e actor now e').0 (unfold perform in p) in
    subst IsIndependent (sym is) (record {
      named = λ _ n. cc;
      not_reporter = λ u q r. reporter (cc);
      not_investigator = λ u q r. investigator (cc);
      cleared = λ n. absurd (n refl);
    })
perform-IsIndependent e (reopen session reason) h e' p =
    subst IsIndependent (sym (perform-reopen e session reason p).1) (record {
      named = λ c. cc;
      not_reporter = λ u q. cc;
      not_investigator = λ u q. cc;
      cleared = λ _. (refl, refl);
    })

step-IsIndependent : (e : Event) (a : Action) → IsIndependent e → IsIndependent (step e a)
unfolding step
step-IsIndependent e a h = kept_cases IsIndependent e (perform e a) h (perform-IsIndependent e a h)

-- Whatever is done to an event by these rules, a closed event names a closer who is neither its
-- reporter nor its investigator, and any other event names none, if that was so at first.
pub run-IsIndependent :
    (e : Event) (actions : List Action) → IsIndependent e → IsIndependent (run step e actions)
run-IsIndependent = run_induction step IsIndependent step-IsIndependent

abbrev pub is_in_progress : Event → Bool
is_in_progress e = elim e.status [ in_progress ↦ true | _ ↦ false ]

abbrev pub is_resolved : Event → Bool
is_resolved e = elim e.status [ resolved ↦ true | _ ↦ false ]

abbrev pub is_closed : Event → Bool
is_closed e = elim e.status [ closed ↦ true | _ ↦ false ]

-- An event is only closed when it is resolved, and only resolved when it is in progress.
step-closed :
    (e : Event) (a : Action)
    → is_closed (step e a) ≡ true
    → (is_closed e ≡ true) ⊎ (is_resolved e ≡ true)
unfolding step perform
step-closed e (advance status) h = ground arith
step-closed e (close actor now) h = ground arith
step-closed e (reopen session reason) h = ground arith

step-resolved :
    (e : Event) (a : Action)
    → is_resolved (step e a) ≡ true
    → (is_resolved e ≡ true) ⊎ (is_in_progress e ≡ true)
unfolding step perform
step-resolved e (advance status) h = ground arith
step-resolved e (close actor now) h = ground arith
step-resolved e (reopen session reason) h = ground arith

-- An event that starts open and ends closed, whatever is done to it by these rules, was in progress
-- and resolved on the way.
pub closed_after_investigation :
    (e : Event) (actions : List Action)
    → e.status ≡ opened
    → (run step e actions).status ≡ closed
    → (visits step is_in_progress e actions ≡ true) × (visits step is_resolved e actions ≡ true)
closed_after_investigation e actions start h =
    let ends = run-visits step is_closed e actions (ground arith) in
    let from_resolved = visits-before step is_closed is_resolved step-closed e actions ends in
    let past_resolved : visits step is_resolved e actions ≡ true = ground arith in
    let from_progress =
      visits-before step is_resolved is_in_progress step-resolved e actions past_resolved in
    (ground arith, past_resolved)
