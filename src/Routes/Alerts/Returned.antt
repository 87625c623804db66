-- ===== src/Routes/Alerts/Returned.antt =====
-- What the status of an alert says of the signed documents that its groups have returned.
use cron_qms.Prelude.{
  ℕ, ◌≡◌, ◌≢◌, ◌⊎◌, ◌↔◌, refl, inl, inr, Bool-cases, true, false, ◌&&◌, some, List, [], ◌∷◌, ◌==◌,
  is_some_of, arith, All, Any, All-map, any-Any, any-All,
}
use cron_qms.Models.Alert.{
  Alert, AlertStatus, AlertAcknowledgement, open_alert, acknowledged, closed_alert,
}
use cron_qms.Routes.Alerts.{is_nil}
use cron_qms.Routes.Alerts.Acknowledgements.{responded, all_responded}
use cron_qms.Routes.Alerts.Answers.{agrees}

-- A group has returned a signed document for an alert.
abbrev pub HasReturned : ℕ → List AlertAcknowledgement → ℕ → Type 0
HasReturned id rows g =
    Any (λ (k : AlertAcknowledgement). (k.alert_id ≡ id) × (k.group_id ≡ some g)) rows

-- A group has returned none.
abbrev pub IsMissing : ℕ → List AlertAcknowledgement → ℕ → Type 0
IsMissing id rows g =
    All (λ (k : AlertAcknowledgement). (k.alert_id ≢ id) ⊎ (k.group_id ≢ some g)) rows

-- What the status of an alert says of the signed documents.
pub data Agrees (rows : List AlertAcknowledgement) (a : Alert) : Type 0 where
  waits :
      a.status ≡ open_alert
      → (a.recipient_groups ≡ []) ⊎ Any (IsMissing a.id rows) a.recipient_groups
      → Agrees rows a
  answered :
      a.status ≡ acknowledged
      → a.recipient_groups ≢ []
      → All (HasReturned a.id rows) a.recipient_groups
      → Agrees rows a
  done : a.status ≡ closed_alert → Agrees rows a

responded-HasReturned :
    (id g : ℕ) (rows : List AlertAcknowledgement)
    → (responded id rows g ≡ true) ↔ HasReturned id rows g
responded-HasReturned id g rows =
    any-Any (λ k. k.alert_id == id && is_some_of g k.group_id)
      (λ (k : AlertAcknowledgement). (k.alert_id ≡ id) × (k.group_id ≡ some g)) rows
      (λ k. (λ h. ground arith, λ h. ground arith))

responded-IsMissing :
    (id g : ℕ) (rows : List AlertAcknowledgement)
    → (responded id rows g ≡ false) ↔ IsMissing id rows g
responded-IsMissing id g rows =
    any-All (λ k. k.alert_id == id && is_some_of g k.group_id)
      (λ (k : AlertAcknowledgement). (k.alert_id ≢ id) ⊎ (k.group_id ≢ some g)) rows
      (λ k. (λ h. ground arith, λ h. ground arith))

all_responded-HasReturned :
    (id : ℕ) (rows : List AlertAcknowledgement) (gs : List ℕ)
    → (all_responded id rows gs ≡ true) ↔ All (HasReturned id rows) gs
all_responded-HasReturned id rows [] = (λ h. tt, λ h. refl)
all_responded-HasReturned id rows (g ∷ gs) =
    let here = responded-HasReturned id g rows in
    let rest = all_responded-HasReturned id rows gs in
    (
      λ h. (here.0 (ground arith), rest.0 (ground arith)),
      λ h. let one = here.1 h.0 in let others = rest.1 h.1 in ground arith,
    )

all_responded-IsMissing :
    (id : ℕ) (rows : List AlertAcknowledgement) (gs : List ℕ)
    → (all_responded id rows gs ≡ false) ↔ Any (IsMissing id rows) gs
all_responded-IsMissing id rows [] = (λ h. absurd (ground arith), λ h. absurd h)
all_responded-IsMissing id rows (g ∷ gs) =
    let here = responded-IsMissing id g rows in
    let rest = all_responded-IsMissing id rows gs in
    (
      λ h. elim (Bool-cases (responded id rows g)) [
        | inl has_returned ↦ inr (rest.0 (ground arith))
        | inr has_not ↦ inl (here.0 has_not)
      ],
      λ h. elim h [
        | inl missing ↦ let no = here.1 missing in ground arith
        | inr later ↦ let no = rest.1 later in ground arith
      ],
    )

status-cases : (s : AlertStatus) → (s ≡ open_alert) ⊎ ((s ≡ acknowledged) ⊎ (s ≡ closed_alert))
status-cases open_alert = inl refl
status-cases acknowledged = inr (inl refl)
status-cases closed_alert = inr (inr refl)

nil-cases : (gs : List ℕ) → (gs ≡ []) ⊎ ((gs ≢ []) × (is_nil gs ≡ false))
nil-cases [] = inl refl
nil-cases (g ∷ gs) = inr (λ h. cc, refl)

-- The test of the code, and what it tests.
agrees→Agrees :
    (rows : List AlertAcknowledgement) (a : Alert) → agrees rows a ≡ true → Agrees rows a
agrees→Agrees rows a h =
    let returned = all_responded-HasReturned a.id rows a.recipient_groups in
    let missing = all_responded-IsMissing a.id rows a.recipient_groups in
    elim (status-cases a.status) [
      | inl is_open ↦ waits is_open (elim (nil-cases a.recipient_groups) [
        | inl none_of ↦ inl none_of
        | inr (some_of, filled) ↦ inr (missing.0 (ground arith))
      ])
      | inr (inl is_acknowledged) ↦ elim (nil-cases a.recipient_groups) [
        | inl none_of ↦ absurd (ground arith)
        | inr (some_of, filled) ↦ answered is_acknowledged some_of (returned.0 (ground arith))
      ]
      | inr (inr is_closed) ↦ done is_closed
    ]

Agrees→agrees :
    (rows : List AlertAcknowledgement) (a : Alert) → Agrees rows a → agrees rows a ≡ true
Agrees→agrees rows a (waits is_open (inl none_of)) = ground arith
Agrees→agrees rows a (waits is_open (inr missing)) =
    let no = (all_responded-IsMissing a.id rows a.recipient_groups).1 missing in ground arith
Agrees→agrees rows a (answered is_acknowledged some_of returned) =
    let all = (all_responded-HasReturned a.id rows a.recipient_groups).1 returned in
    elim (nil-cases a.recipient_groups) [
      | inl none_of ↦ absurd (some_of none_of)
      | inr (_, filled) ↦ ground arith
    ]
Agrees→agrees rows a (done is_closed) = ground arith

pub agrees-AreAgreed :
    (rows : List AlertAcknowledgement) (xs : List Alert)
    → All (λ a. agrees rows a ≡ true) xs ↔ All (Agrees rows) xs
agrees-AreAgreed rows xs = (
  λ h. All-map (λ a. agrees rows a ≡ true) (Agrees rows) xs (agrees→Agrees rows) h,
  λ h. All-map (Agrees rows) (λ a. agrees rows a ≡ true) xs (Agrees→agrees rows) h,
)
