-- ===== src/Dates/Days.antt =====
-- Adding days to a date.
use cron_qms.Prelude.{
  ℕ, zero, suc, ◌+◌, ◌*◌, ◌≤◌, ◌≡◌, refl, inl, inr, true, arith, ok, ltb, Bool-cases, ap, ◌∙◌,
  >>=-eq-ok, ok-injective,
}
use cron_qms.Dates.{Date, date, max_year, days_in_month, IsDate, date_ltb, next_day, add_days}
use cron_qms.Dates.Order.{date_ltb_trans}
use cron_qms.Dates.Months.{month_index, days_in_month_bounds}

next_day-IsDate : {d e : Date} → IsDate d → next_day d ≡ ok e → IsDate e
unfolding next_day
next_day-IsDate {d} v h =
    ground (arith, days_in_month_bounds d.year (d.month + 1), days_in_month_bounds (d.year + 1) 1)

lt-next_day : {d e : Date} → IsDate d → next_day d ≡ ok e → date_ltb d e ≡ true
unfolding next_day date_ltb
lt-next_day v h = ground arith

-- Adding days gives a date of the calendar.
pub add_days-IsDate : (d : Date) (n : ℕ) {e : Date} → IsDate d → add_days d n ≡ ok e → IsDate e
unfolding add_days
add_days-IsDate d zero v h = ground arith
add_days-IsDate d (suc n) {e} v h =
    let (d', first_day, rest) = >>=-eq-ok (next_day d) (λ x. add_days x n) h in
    add_days-IsDate d' n (next_day-IsDate v first_day) rest

-- A later date, unless no day is added.
pub lt-add_days :
    (d : Date) (n : ℕ) {e : Date} → IsDate d → add_days d (suc n) ≡ ok e → date_ltb d e ≡ true
unfolding add_days
lt-add_days d zero {e} v h =
    let (d', first_day, rest) = >>=-eq-ok (next_day d) (λ x. add_days x zero) h in
    ground (arith, lt-next_day v first_day)
lt-add_days d (suc n) {e} v h =
    let (d', first_day, rest) = >>=-eq-ok (next_day d) (λ x. add_days x (suc n)) h in
    date_ltb_trans d d' e (lt-next_day v first_day)
      (lt-add_days d' n (next_day-IsDate v first_day) rest)

-- Days are added in two steps.
pub add_days-add :
    (d : Date) (n k : ℕ) {e : Date} → add_days d n ≡ ok e → add_days d (n + k) ≡ add_days e k
unfolding add_days
add_days-add d zero k {e} h =
    let unit : 0 + k ≡ k = omega arith in
    ap (add_days d) unit ∙ ap (λ x. add_days x k) (ok-injective h)
add_days-add d (suc n) k {e} h =
    let (d', first_day, rest) = >>=-eq-ok (next_day d) (λ x. add_days x n) h in
    let step : suc n + k ≡ suc (n + k) = omega arith in
    ap (add_days d) step ∙ rw first_day (add_days-add d' n k rest)

-- A count that grows by one to four with every day.
abbrev progress : Date → ℕ
progress d = month_index d * 31 + d.day

next_day-total :
    (d : Date)
    → IsDate d
    → progress d + 4 ≤ (max_year * 12 + 12) * 31
    → (e : Date) × (next_day d ≡ ok e) × (progress e ≤ progress d + 4)
unfolding next_day
next_day-total d v within = elim (Bool-cases (ltb d.day (days_in_month d.year d.month))) [
  | inl y ↦ (record d { day = d.day + 1 }, ground arith, ground arith)
  | inr n ↦ elim (Bool-cases (ltb d.month 12)) [
    | inl y ↦ (
      date d.year (d.month + 1) 1,
      ground arith,
      ground (arith, days_in_month_bounds d.year d.month),
    )
    | inr m ↦ (
      date (d.year + 1) 1 1,
      ground (arith, days_in_month_bounds d.year d.month),
      ground (arith, days_in_month_bounds d.year d.month),
    )
  ]
]

-- Adding days succeeds where the last year leaves room.
pub add_days-total :
    (d : Date) (n : ℕ)
    → IsDate d
    → progress d + 4 * n ≤ (max_year * 12 + 12) * 31
    → (e : Date) × (add_days d n ≡ ok e)
unfolding add_days
add_days-total d zero v within = (d, refl)
add_days-total d (suc n) v within =
    let (d', first_day, bound) = next_day-total d v (omega arith) in
    let (e, rest) = add_days-total d' n (next_day-IsDate v first_day) (omega arith) in
    (e, rw (first_day) rest)
