-- ===== src/Services/CapaWorkflow/Rules.antt =====
-- What each rule of app/services/capa_workflow.py allows and does.
use cron_qms.Prelude.{
  String, ◌≡◌, refl, ◌⊎◌, inl, inr, ◌≢◌, ◌↔◌, true, false, none, some, [], arith, Result, ok,
  Bool-cases, Option-cases, or_else, Option,
}
use cron_qms.Dates.{Date}
use cron_qms.Models.User.{User}
use cron_qms.Models.Capa.{
  CapaStatus, draft, investigation, action_plan, implementation, effectiveness_check, closed,
  failed_effectiveness, cancelled, VerificationOutcome, effective, ineffective, pending, Capa,
}
use cron_qms.Core.Audit.{Session}
use cron_qms.Services.CapaWorkflow.{
  allowed, blank, gate, apply_status_transition, verify_effectiveness, reopen, cancel,
}

-- A text that says something.
abbrev pub IsFilled : Option String → Type 0
IsFilled text = blank text ≡ false

-- The stages that a CAPA may move between by a status update, each with what it must have recorded.
pub data Move (c : Capa) (s : CapaStatus) : Type 0 where
  investigate :
      c.status ≡ draft
      → s ≡ investigation
      → IsFilled c.initiating_cause ⊎ (c.event_ids ≢ [])
      → Move c s
  plan : c.status ≡ investigation → s ≡ action_plan → IsFilled c.root_cause → Move c s
  implement :
      c.status ≡ action_plan
      → s ≡ implementation
      → IsFilled c.corrective_action ⊎ IsFilled c.preventive_action
      → c.owner_id ≢ none
      → c.due_date ≢ none
      → Move c s
  check :
      c.status ≡ implementation
      → s ≡ effectiveness_check
      → IsFilled c.corrective_action ⊎ IsFilled c.preventive_action
      → Move c s
  investigate_again : c.status ≡ action_plan → s ≡ investigation → Move c s
  plan_again : c.status ≡ implementation → s ≡ action_plan → Move c s
  implement_again : c.status ≡ effectiveness_check → s ≡ implementation → Move c s

module _ (c : Capa) where
  Move-of : (p s : CapaStatus) → c.status ≡ p → allowed p s ≡ true → gate p s c ≡ none → Move c s
  unfolding allowed gate
  Move-of draft investigation e a g = investigate e refl (ground arith)
  Move-of investigation action_plan e a g = plan e refl (ground arith)
  Move-of action_plan implementation e a g =
      implement e refl (ground arith) (λ n. ground arith) (λ n. ground arith)
  Move-of implementation effectiveness_check e a g = check e refl (ground arith)
  Move-of action_plan investigation e a g = investigate_again e refl
  Move-of implementation action_plan e a g = plan_again e refl
  Move-of effectiveness_check implementation e a g = implement_again e refl
  Move-of p s e a g = cc

  Move-allowed :
      {s : CapaStatus} → Move c s → (allowed c.status s ≡ true) × (gate c.status s c ≡ none)
  unfolding allowed gate
  Move-allowed (investigate e f cause) = ground arith
  Move-allowed (plan e f cause) = ground arith
  Move-allowed (implement e f act owner due) = ground arith
  Move-allowed (check e f act) = ground arith
  Move-allowed (investigate_again e f) = ground arith
  Move-allowed (plan_again e f) = ground arith
  Move-allowed (implement_again e f) = ground arith

-- A status update is accepted exactly for a move of the diagram whose gate is met, and then changes
-- the status alone.
pub capa_transition_iff :
    (c : Capa) (s : CapaStatus) (c' : Capa)
    → (apply_status_transition c s ≡ ok c') ↔ (Move c s × (c' ≡ record c { status = s }))
unfolding apply_status_transition
capa_transition_iff c s c' = (
  λ h. elim (Bool-cases (allowed c.status s)) [
    | inl y ↦ elim (Option-cases (gate c.status s c)) [
      | inl g ↦ (Move-of c c.status s refl y g, ground arith)
      | inr (error, g) ↦ absurd (ground arith)
    ]
    | inr n ↦ absurd (ground arith)
  ],
  λ h. let (a, g) = Move-allowed c h.0 in rw (a, g, h.1),
)

module _ (db : Session) (c : Capa) where
  -- A verification is accepted exactly for a CAPA in its effectiveness check, by a user who is not
  -- its owner, with the outcome Effective or Ineffective. It hands the reason to the audit trail and
  -- records the outcome, the date given or else today's, and the verifier; Effective gives the CAPA
  -- the status Closed, Ineffective the status Failed Effectiveness.
  pub verify_effectiveness_iff :
      (actor : User) (outcome : VerificationOutcome) (given : Option Date) (reason : Option String)
      (today : Date) (db' : Session) (c' : Capa)
      → ◌≡◌ {A = Result (Session × Capa)}
          (verify_effectiveness db c actor outcome given reason today)
          (ok (db', c'))
        ↔ ((c.status ≡ effectiveness_check)
            × (c.owner_id ≢ some actor.id)
            × (db' ≡ record db { reason = reason })
            × (((outcome ≡ effective)
                  × (c' ≡ record c {
                    status = closed;
                    verification_outcome = effective;
                    verification_date = some (or_else given today);
                    verified_by = some actor.id;
                  }))
                ⊎ ((outcome ≡ ineffective)
                    × (c' ≡ record c {
                      status = failed_effectiveness;
                      verification_outcome = ineffective;
                      verification_date = some (or_else given today);
                      verified_by = some actor.id;
                    }))))
  unfolding verify_effectiveness
  verify_effectiveness_iff actor effective given reason today db' c' =
      (λ h. ground arith, λ h. ground arith)
  verify_effectiveness_iff actor ineffective given reason today db' c' =
      (λ h. ground arith, λ h. ground arith)
  verify_effectiveness_iff actor pending given reason today db' c' =
      (λ h. ground arith, λ h. ground arith)

  -- A reopening is accepted exactly for a closed or a failed CAPA; it hands the reason to the audit
  -- trail, returns the CAPA to its investigation and takes the verification back.
  pub capa_reopen_iff :
      (reason : String) (db' : Session) (c' : Capa)
      → ◌≡◌ {A = Result (Session × Capa)} (reopen db c reason) (ok (db', c')) ↔ (
          ((c.status ≡ closed) ⊎ (c.status ≡ failed_effectiveness))
          × (db' ≡ record db { reason = some reason })
          × (c' ≡ record c {
            status = investigation;
            verification_outcome = pending;
            verification_date = none;
            verified_by = none;
          }))
  unfolding reopen
  capa_reopen_iff reason db' c' = (λ h. ground arith, λ h. ground arith)

  -- A cancellation is accepted exactly for a CAPA that is not closed, failed or cancelled; it hands
  -- the reason to the audit trail and changes the status alone.
  pub cancel_iff :
      (reason : String) (db' : Session) (c' : Capa)
      → ◌≡◌ {A = Result (Session × Capa)} (cancel db c reason) (ok (db', c')) ↔ (
          (c.status ≢ closed)
          × (c.status ≢ failed_effectiveness)
          × (c.status ≢ cancelled)
          × (db' ≡ record db { reason = some reason })
          × (c' ≡ record c { status = cancelled }))
  unfolding cancel
  cancel_iff reason db' c' = (λ h. ground arith, λ h. ground arith)
