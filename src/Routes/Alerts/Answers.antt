-- ===== src/Routes/Alerts/Answers.antt =====
-- When an alert counts as answered by its groups.
use cron_qms.Prelude.{
  ℕ, ◌≡◌, refl, sym, subst, inl, inr, Bool, Bool-cases, true, false, not, ◌&&◌, some, List, [], ◌∷◌,
  ◌++◌, ◌==◌, arith, All, first, first-All, overwrite, overwrite-hit, overwrite-miss,
}
use cron_qms.Models.Alert.{Alert, AlertAcknowledgement, open_alert, acknowledged, closed_alert}
use cron_qms.Core.Audit.Recorded.{DistinctIds}
use cron_qms.Routes.Scoped.{is_row}
use cron_qms.Routes.Tables.More.{alert_table}
use cron_qms.Routes.Alerts.{is_nil}
use cron_qms.Routes.Alerts.Acknowledgements.{
  responded, all_responded, is_answered, after_acknowledgement,
}

-- An open alert waits for a group, and for an acknowledged one no group is left to wait for.
abbrev pub agrees : List AlertAcknowledgement → Alert → Bool
agrees rows a = elim a.status [
  | open_alert ↦ not (is_answered a rows)
  | acknowledged ↦ is_answered a rows
  | closed_alert ↦ true
]

responded-other :
    (id g : ℕ) (k : AlertAcknowledgement) (rows : List AlertAcknowledgement)
    → (k.alert_id == id) ≡ false
    → responded id (rows ++ k ∷ []) g ≡ responded id rows g
responded-other id g k [] other = ground arith
responded-other id g k (r ∷ rs) other = ground (arith, responded-other id g k rs other)

responded-more :
    (id g : ℕ) (k : AlertAcknowledgement) (rows : List AlertAcknowledgement)
    → responded id rows g ≡ true
    → responded id (rows ++ k ∷ []) g ≡ true
responded-more id g k [] h = ground arith
responded-more id g k (r ∷ rs) h = ground (arith, responded-more id g k rs)

responded-none :
    (id g : ℕ) (rows : List AlertAcknowledgement)
    → All (λ (k : AlertAcknowledgement). (id == k.alert_id) ≡ false) rows
    → responded id rows g ≡ false
responded-none id g [] none_of = refl
responded-none id g (r ∷ rs) none_of = ground (arith, none_of.0, responded-none id g rs none_of.1)

all_responded-other :
    (id : ℕ) (k : AlertAcknowledgement) (rows : List AlertAcknowledgement) (gs : List ℕ)
    → (k.alert_id == id) ≡ false
    → all_responded id (rows ++ k ∷ []) gs ≡ all_responded id rows gs
all_responded-other id k rows [] other = refl
all_responded-other id k rows (g ∷ gs) other =
    rw (responded-other id g k rows other, all_responded-other id k rows gs other)

all_responded-more :
    (id : ℕ) (k : AlertAcknowledgement) (rows : List AlertAcknowledgement) (gs : List ℕ)
    → all_responded id rows gs ≡ true
    → all_responded id (rows ++ k ∷ []) gs ≡ true
all_responded-more id k rows [] h = refl
all_responded-more id k rows (g ∷ gs) h =
    let here = responded-more id g k rows (ground arith) in
    let rest = all_responded-more id k rows gs (ground arith) in ground (arith, here, rest)

-- A new alert waits for its groups.
pub new-waits :
    (a : Alert) (rows : List AlertAcknowledgement)
    → All (λ (k : AlertAcknowledgement). (a.id == k.alert_id) ≡ false) rows
    → is_answered a rows ≡ false
new-waits a rows none_of = waits a.recipient_groups
  where
    waits : (gs : List ℕ) → (not (is_nil gs) && all_responded a.id rows gs) ≡ false
    waits [] = refl
    waits (g ∷ gs) = ground (arith, responded-none a.id g rows none_of)

other-agrees :
    (a : Alert) (k : AlertAcknowledgement) (rows : List AlertAcknowledgement)
    → (k.alert_id == a.id) ≡ false
    → agrees rows a ≡ true
    → agrees (rows ++ k ∷ []) a ≡ true
other-agrees a k rows other h =
    let same = all_responded-other a.id k rows a.recipient_groups other in ground (arith, same)

pub after-agrees :
    (a : Alert) (k : AlertAcknowledgement) (rows : List AlertAcknowledgement)
    → agrees rows a ≡ true
    → agrees (rows ++ k ∷ []) (after_acknowledgement a (rows ++ k ∷ [])) ≡ true
unfolding after_acknowledgement
after-agrees a k rows h =
    let more = all_responded-more a.id k rows a.recipient_groups in ground (arith, more)

-- One more acknowledgement of the alert that was found, whose row is written.
pub acknowledged-agrees :
    (a a' : Alert) (k : AlertAcknowledgement) (rows : List AlertAcknowledgement) (xs : List Alert)
    → first (is_row alert_table a.id) xs ≡ some a
    → k.alert_id ≡ a.id
    → agrees (rows ++ k ∷ []) a' ≡ true
    → DistinctIds alert_table.audited xs
    → All (λ x. agrees rows x ≡ true) xs
    → All (λ x. agrees (rows ++ k ∷ []) x ≡ true) (overwrite (is_row alert_table a.id) a' xs)
acknowledged-agrees a a' k rows [] found of_a h' ids all = tt
acknowledged-agrees a a' k rows (x ∷ xs) found of_a h' ids all =
    elim (Bool-cases (is_row alert_table a.id x)) [
      | inl e ↦
          let is : x ≡ a = ground arith in
          subst (All (λ y. agrees (rows ++ k ∷ []) y ≡ true))
            (sym (overwrite-hit (is_row alert_table a.id) a' x xs e))
            (
              h',
              others xs (subst (λ z. All (λ (y : Alert). (z.id == y.id) ≡ false) xs) is ids.0)
                  all.1,
            )
      | inr e ↦
          let later : first (is_row alert_table a.id) xs ≡ some a = ground arith in
          let apart : (x.id == a.id) ≡ false =
            first-All (λ (y : Alert). (x.id == y.id) ≡ false) (is_row alert_table a.id) xs ids.0
              later in
          let ih = acknowledged-agrees a a' k rows xs later of_a h' ids.1 all.1 in
          let of_x : (k.alert_id == x.id) ≡ false = ground arith in
          subst (All (λ y. agrees (rows ++ k ∷ []) y ≡ true))
            (sym (overwrite-miss (is_row alert_table a.id) a' x xs e))
            (other-agrees x k rows of_x all.0, ih)
    ]
  where
    others :
        (ys : List Alert)
        → All (λ (y : Alert). (a.id == y.id) ≡ false) ys
        → All (λ y. agrees rows y ≡ true) ys
        → All (λ y. agrees (rows ++ k ∷ []) y ≡ true) ys
    others [] apart all = tt
    others (y ∷ ys) apart all =
        (other-agrees y k rows (ground (arith, apart.0)) all.0, others ys apart.1 all.1)
