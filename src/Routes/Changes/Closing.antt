-- ===== src/Routes/Changes/Closing.antt =====
-- The gates on the status of a change in app/api/routes/changes.py.
use cron_qms.Prelude.{
  ◌≢◌, All, Any, Bool-cases, ◌==◌, true, count-filter-Any, count-filter-All, ℕ, ◌≡◌, ◌↔◌, ◌⊎◌, inl,
  inr, sym, ap, subst, ◌∙◌, false, not, ◌&&◌, ◌<◌, Option, none, some, arith, ok, err, http,
  >>=-eq-ok, ok-pair,
}
use cron_qms.Models.Change.{
  ChangeRequest, ChangeStatus, ChangeAction, approved, rejected, closed, closed_action, is_closed,
  actions_of, open_actions_count,
}
use cron_qms.Core.Permissions.{change_update, change_approve, user_has_permission}
use cron_qms.Db.{Db, Env, session_of}
use cron_qms.Routes.Access.{require, asked_for}
use cron_qms.Routes.Scoped.{save}
use cron_qms.Routes.Tables.More.{change_table}
use cron_qms.Routes.Changes.Effects.{updated-SameOwner}
use cron_qms.Routes.Changes.{
  ChangeRequestUpdate, get_change_in_org, is_closing, apply_status, apply_asked, retyped,
  rest_updated, updated, update_change,
}

abbrev open_actions : Db → ChangeRequest → ℕ
open_actions db c = open_actions_count (actions_of c.id db.actions)

-- An action of the change that is not closed.
abbrev pub IsOpenFor : ℕ → ChangeAction → Type 0
IsOpenFor id a = (a.change_id ≡ id) × (a.status ≢ closed_action)

-- What an accepted update says about the status: the caller may approve and reject, and no action
-- of a closed change is open.
pub record IsGated (env : Env) (db : Db) (status : ChangeStatus) (id : ℕ) : Type 0 where
  pub approver :
      ((status ≢ approved) × (status ≢ rejected))
      ⊎ (user_has_permission db.roles env.user change_approve ≡ true)
  pub resolved :
      (status ≢ closed)
      ⊎ All (λ (a : ChangeAction). (a.change_id ≢ id) ⊎ (a.status ≡ closed_action)) db.actions

open_test :
    (id : ℕ) (a : ChangeAction)
    → ((a.change_id == id && not (is_closed a.status)) ≡ true) ↔ IsOpenFor id a
open_test id a = (λ h. ground arith, λ h. ground arith)

closed_test :
    (id : ℕ) (a : ChangeAction)
    → (a.change_id == id && not (is_closed a.status)) ≡ false
    → (a.change_id ≢ id) ⊎ (a.status ≡ closed_action)
closed_test id a h = ground arith

apply_status-IsGated :
    (env : Env) (db : Db) (c : ChangeRequest) (s : ChangeStatus) {c' : ChangeRequest}
    → apply_status env db c s ≡ ok c'
    → (c'.status ≡ s) × IsGated env db s c.id
unfolding apply_status open_actions_count
apply_status-IsGated env db c s h =
    (ground arith, record { approver = approver; resolved = resolved })
  where
    approver :
        ((s ≢ approved) × (s ≢ rejected))
        ⊎ (user_has_permission db.roles env.user change_approve ≡ true)
    approver = elim (Bool-cases (user_has_permission db.roles env.user change_approve)) [
      | inl may ↦ inr may
      | inr may_not ↦ inl (λ e. ground arith, λ e. ground arith)
    ]

    resolved :
        (s ≢ closed)
        ⊎ All (λ (a : ChangeAction). (a.change_id ≢ c.id) ⊎ (a.status ≡ closed_action)) db.actions
    resolved = elim (Bool-cases (is_closing s)) [
      | inl e ↦ inr (
          count-filter-All (λ a. not (is_closed a.status)) (λ a. a.change_id == c.id)
            (λ (a : ChangeAction). (a.change_id ≢ c.id) ⊎ (a.status ≡ closed_action)) db.actions
            (closed_test c.id) (ground arith))
      | inr e ↦ inl (λ is. ground arith)
    ]

apply_asked-status :
    (env : Env) (db : Db) (c : ChangeRequest) (s : Option ChangeStatus) {c' : ChangeRequest}
    → apply_asked env db c s ≡ ok c'
    → (c'.status ≡ c.status) ⊎ ((s ≡ some c'.status) × IsGated env db c'.status c.id)
apply_asked-status env db c none h = inl (ground arith)
apply_asked-status env db c (some s) h =
    let (is, gated) = apply_status-IsGated env db c s h in
    inr (ap some (sym is), subst (λ x. IsGated env db x c.id) (sym is) gated)

rest_keeps_status :
    (p : ChangeRequestUpdate) (moved : ChangeRequest) {c' : ChangeRequest}
    → rest_updated p moved ≡ ok c'
    → c'.status ≡ moved.status
unfolding rest_updated
rest_keeps_status p moved h = ground arith

updated-status :
    (env : Env) (db : Db) (p : ChangeRequestUpdate) (c : ChangeRequest) {c' : ChangeRequest}
    → updated env db p c ≡ ok c'
    → (c'.status ≡ c.status)
      ⊎ ((asked_for p.status ≡ some c'.status) × IsGated env db c'.status c.id)
unfolding updated
updated-status env db p c {c'} h =
    let (moved, is_moved, h1) =
      >>=-eq-ok (apply_asked env db (retyped p c) (asked_for p.status)) _ h in
    let same = rest_keeps_status p moved h1 in
    elim (apply_asked-status env db (retyped p c) (asked_for p.status) is_moved) [
      | inl e ↦ inl (same ∙ e)
      | inr (asked, gated) ↦
          inr (asked ∙ ap some (sym same), subst (λ x. IsGated env db x c.id) (sym same) gated)
    ]

IsGated-after :
    (env : Env) (db db' : Db) (s : ChangeStatus) (id : ℕ)
    → db'.roles ≡ db.roles
    → db'.actions ≡ db.actions
    → IsGated env db s id
    → IsGated env db' s id
IsGated-after env db db' s id same_roles same_actions gated = record {
  approver = rw same_roles gated.approver;
  resolved = rw same_actions gated.resolved;
}

-- An update of a change that succeeds either leaves the status as it is, or gives it the status
-- that the payload asks for. In that case the new status is neither Approved nor Rejected or the
-- caller has the permission change:approve, and the new status is not Closed or, in the database
-- that the request leaves, every action of the change is Closed.
pub update_change-status :
    (env : Env) (db : Db) (id : ℕ) (p : ChangeRequestUpdate) {db' : Db} {c' : ChangeRequest}
    → update_change env db id p ≡ ok (db', c')
    → (c : ChangeRequest) × (get_change_in_org env db id ≡ ok c)
      × ((c'.status ≡ c.status)
          ⊎ ((asked_for p.status ≡ some c'.status) × IsGated env db' c'.status c'.id))
unfolding update_change save
update_change-status env db id p {db'} {c'} h =
    let (_, _, h1) = >>=-eq-ok (require change_update env db) _ h in
    let (c, found, h2) = >>=-eq-ok (get_change_in_org env db id) _ h1 in
    let (c2, up, h3) = >>=-eq-ok (updated env db p c) _ h2 in
    let (writes, is) = ok-pair (save change_table env (session_of env) db c c2) db' c2 c' h3 in
    let same_id : c.id ≡ c'.id =
      sym (updated-SameOwner env db p c up).same_key ∙ ap (λ (x : ChangeRequest). x.id) is in
    (
      c,
      found,
      subst
          (λ (x : ChangeRequest).
            (x.status ≡ c.status)
            ⊎ ((asked_for p.status ≡ some x.status) × IsGated env db' x.status c'.id))
          is
          (elim (updated-status env db p c up) [
            | inl e ↦ inl e
            | inr (asked, gated) ↦ inr (
              asked,
              subst (IsGated env db' c2.status) same_id (
                  IsGated-after env db db' c2.status c.id (ap (λ (d : Db). d.roles) (sym writes))
                    (ap (λ (d : Db). d.actions) (sym writes)) gated),
            )
          ]),
    )

conflict_count_iff :
    (env : Env) (db : Db) (id : ℕ) (p : ChangeRequestUpdate) {c : ChangeRequest}
    → require change_update env db ≡ ok tt
    → get_change_in_org env db id ≡ ok c
    → (update_change env db id p ≡ err (http 409 "Cannot close a change with open actions"))
      ↔ ((asked_for p.status ≡ some closed) × (0 < open_actions db c))
unfolding update_change updated rest_updated apply_status
conflict_count_iff env db id p allowed found = (λ h. ground arith, λ (a, b). ground arith)

-- Where the caller may update changes and the change is found, the update is refused with the
-- conflict of open actions exactly if it asks to close the change while some action of the change
-- is not Closed.
pub update_change_conflict_iff :
    (env : Env) (db : Db) (id : ℕ) (p : ChangeRequestUpdate) {c : ChangeRequest}
    → require change_update env db ≡ ok tt
    → get_change_in_org env db id ≡ ok c
    → (update_change env db id p ≡ err (http 409 "Cannot close a change with open actions"))
      ↔ ((asked_for p.status ≡ some closed) × Any (IsOpenFor c.id) db.actions)
unfolding open_actions_count
update_change_conflict_iff env db id p {c} allowed found =
    let counted = conflict_count_iff env db id p allowed found in
    let pending =
      count-filter-Any (λ a. not (is_closed a.status)) (λ a. a.change_id == c.id) (IsOpenFor c.id)
        db.actions (open_test c.id) in
    (
      λ h. let (asked, left) = counted.0 h in (asked, pending.0 left),
      λ h. counted.1 (h.0, pending.1 h.1),
    )
