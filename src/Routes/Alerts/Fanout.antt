-- ===== src/Routes/Alerts/Fanout.antt =====
-- Who is notified of an alert.
use cron_qms.Prelude.{
  ℕ, suc, ◌+◌, ◌≡◌, refl, sym, ap, ◌∙◌, inl, inr, Bool, Bool-cases, true, false, ◌||◌, Option, List,
  [], ◌∷◌, ◌++◌, any, count, count-append, ◌==◌, arith, if◌then◌else◌, ok, http, raise_if,
  >>=-eq-ok, ok-pair,
}
use cron_qms.Models.Alert.{Alert, Notification}
use cron_qms.Db.{Db, Env, session_of}
use cron_qms.Routes.Scoped.{insert}
use cron_qms.Routes.Tables.More.{alert_table}
use cron_qms.Routes.Alerts.{
  AlertForm, groups_of, is_nil, own_organization, expiry_or, default_expiry, add_once, unique_onto,
  members_of, recipient_ids, notify, new_alert, issue_alert,
}

abbrev pub times : ℕ → List ℕ → ℕ
times id ids = count (λ x. x == id) ids

abbrev pub occurs : ℕ → List ℕ → Bool
occurs id ids = any (λ x. x == id) ids

abbrev pub as_count : Bool → ℕ
as_count b = if b then 1 else 0

occurs-append :
    (id new : ℕ) (seen : List ℕ) → occurs id (seen ++ new ∷ []) ≡ occurs id seen || new == id
occurs-append id new [] = ground arith
occurs-append id new (x ∷ xs) = ground (arith, occurs-append id new xs)

-- A number that is there already is not added again.
add_once-old : (new : ℕ) (seen : List ℕ) → occurs new seen ≡ true → add_once seen new ≡ seen
add_once-old new seen e = rw e

add_once-new :
    (new : ℕ) (seen : List ℕ) → occurs new seen ≡ false → add_once seen new ≡ seen ++ new ∷ []
add_once-new new seen e = rw e

occurs-same : (id new : ℕ) (seen : List ℕ) → (new == id) ≡ true → occurs id seen ≡ occurs new seen
occurs-same id new seen e = ap (λ k. occurs k seen) (ground arith)

add_once-occurs :
    (id new : ℕ) (seen : List ℕ) → occurs id (add_once seen new) ≡ occurs id seen || new == id
add_once-occurs id new seen = elim (Bool-cases (occurs new seen)) [
  | inl e ↦ ap (occurs id) (add_once-old new seen e) ∙ elim (Bool-cases (new == id)) [
    | inl is ↦ ground (arith, occurs-same id new seen is)
    | inr not_is ↦ ground arith
  ]
  | inr e ↦ ap (occurs id) (add_once-new new seen e) ∙ occurs-append id new seen
]

add_once-times :
    (id new : ℕ) (seen : List ℕ)
    → times id seen ≡ as_count (occurs id seen)
    → times id (add_once seen new) ≡ as_count (occurs id seen || new == id)
add_once-times id new seen once = elim (Bool-cases (occurs new seen)) [
  | inl e ↦ ap (times id) (add_once-old new seen e) ∙ elim (Bool-cases (new == id)) [
    | inl is ↦ ground (arith, occurs-same id new seen is)
    | inr not_is ↦ ground arith
  ]
  | inr e ↦
      ap (times id) (add_once-new new seen e)
      ∙ count-append (λ x. x == id) seen (new ∷ [])
      ∙ elim (Bool-cases (new == id)) [
        | inl is ↦ ground (arith, occurs-same id new seen is)
        | inr not_is ↦ ground arith
      ]
]

unique_onto-times :
    (id : ℕ) (seen ids : List ℕ)
    → times id seen ≡ as_count (occurs id seen)
    → times id (unique_onto seen ids) ≡ as_count (occurs id seen || occurs id ids)
unfolding unique_onto
unique_onto-times id seen [] once = ground (arith, once)
unique_onto-times id seen (new ∷ ids) once =
    let occurs_is = add_once-occurs id new seen in
    let ih =
      unique_onto-times id (add_once seen new) ids
        (add_once-times id new seen once ∙ ap as_count (sym occurs_is)) in
    ih ∙ ap (λ b. as_count (b || occurs id ids)) occurs_is ∙ ground arith

notify-count :
    (user_id first_key : ℕ) (a : Alert) (ids : List ℕ)
    → count (λ (n : Notification). n.user_id == user_id) (notify first_key a ids)
      ≡ times user_id ids
unfolding notify
notify-count user_id first_key a [] = refl
notify-count user_id first_key a (id ∷ ids) =
    ground (arith, notify-count user_id (suc first_key) a ids)

-- An alert that is issued brings one notification to each user who is a member of a recipient
-- group, however many of the groups name the user, and none to anyone else.
pub issue_alert-count :
    (env : Env) (first_key : ℕ) (db : Db) (event_id : Option ℕ) (p : AlertForm) (user_id : ℕ)
    {db' : Db} {a : Alert}
    → issue_alert env first_key db event_id p ≡ ok (db', a)
    → count (λ n. n.user_id == user_id) db'.notifications
      ≡ count (λ n. n.user_id == user_id) db.notifications
        + as_count (occurs user_id (members_of (groups_of env db p.recipient_group_ids)))
unfolding issue_alert recipient_ids
issue_alert-count env first_key db event_id p user_id {db'} {a} h =
    let groups = groups_of env db p.recipient_group_ids in
    let (_, _, h1) =
      >>=-eq-ok (raise_if (is_nil groups) (http 303 "Select at least one recipient group.")) _ h in
    let (o, _, h2) = >>=-eq-ok (own_organization env) _ h1 in
    let (due, _, h3) = >>=-eq-ok p.response_due_date _ h2 in
    let (asked, _, h4) = >>=-eq-ok p.expires_at _ h3 in
    let (expires, _, h5) = >>=-eq-ok (expiry_or asked (default_expiry env db o)) _ h4 in
    let n = new_alert env event_id o p groups due expires in
    let ids = unique_onto [] (members_of groups) in
    let told = notify first_key n ids in
    let written = record (insert alert_table env (session_of env) db n) {
      notifications = db.notifications ++ told;
    } in
    let is = ap (λ (d : Db). d.notifications) (sym (ok-pair written db' n a h5).0) in
    ap (count (λ (x : Notification). x.user_id == user_id)) is
    ∙ count-append (λ (x : Notification). x.user_id == user_id) db.notifications told
    ∙ ap (λ k. count (λ (x : Notification). x.user_id == user_id) db.notifications + k)
        (notify-count user_id first_key n ids
          ∙ unique_onto-times user_id [] (members_of groups) refl)
