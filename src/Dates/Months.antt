-- ===== src/Dates/Months.antt =====
-- `add_months` of app/services/document_workflow.py.
use cron_qms.Prelude.{
  ℕ, zero, suc, refl, ◌⊎◌, inl, inr, ◌+◌, ◌-◌, ◌*◌, ◌/◌, ◌%◌, ◌≤◌, ◌<◌, min, ◌≡◌, true, arith, ok,
}
use cron_qms.Dates.{Date, date, max_year, IsDate, days_in_month, date_ltb, add_months}

pub days_in_month_bounds : (y m : ℕ) → (28 ≤ days_in_month y m) × (days_in_month y m ≤ 31)
unfolding days_in_month
days_in_month_bounds y m = ground arith

-- Months counted from year 0.
abbrev pub month_index : Date → ℕ
month_index d = d.year * 12 + (d.month - 1)

module _ (d : Date) (n : ℕ) {e : Date} (v : IsDate d) (h : add_months d n ≡ ok e) where
  -- The result is a date of the calendar.
  add_months-IsDate : IsDate e
  unfolding add_months
  add_months-IsDate =
      ground
        (arith, days_in_month_bounds (d.year + (d.month - 1 + n) / 12) ((d.month - 1 + n) % 12 + 1))

  -- It lies exactly the given number of months later.
  month_index-add_months : month_index e ≡ month_index d + n
  unfolding add_months
  month_index-add_months = ground arith

  day-add_months : e.day ≡ min d.day (days_in_month e.year e.month)
  unfolding add_months
  day-add_months = ground arith

  lt-add_months : 0 < n → date_ltb d e ≡ true
  unfolding add_months date_ltb
  lt-add_months pos = ground arith

-- Nothing is added, or the result lies later.
lt-or-none :
    (d : Date) (n : ℕ) {e : Date}
    → IsDate d
    → add_months d n ≡ ok e
    → (n ≡ 0) ⊎ (date_ltb d e ≡ true)
lt-or-none d zero v h = inl refl
lt-or-none d (suc n) v h = inr (lt-add_months d (suc n) v h (ground arith))

module _ (d : Date) (n : ℕ) (within : month_index d + n < (max_year + 1) * 12) where
  add_months-total : IsDate d → (e : Date) × (add_months d n ≡ ok e)
  unfolding add_months
  add_months-total v =
      let k = d.month - 1 + n in
      let y = d.year + k / 12 in
      let m = k % 12 + 1 in (date y m (min d.day (days_in_month y m)), ground arith)

-- From a date of the calendar, and up to the last year that there is, a number of months later is
-- a date of the calendar that many months later, on the same day or, where the month is shorter,
-- on its last one; it lies after the start unless no month is added.
pub add_months_lem :
    (d : Date) (n : ℕ)
    → IsDate d
    → month_index d + n < (max_year + 1) * 12
    → (e : Date) × (add_months d n ≡ ok e)
      × IsDate e
      × (month_index e ≡ month_index d + n)
      × (e.day ≡ min d.day (days_in_month e.year e.month))
      × ((n ≡ 0) ⊎ (date_ltb d e ≡ true))
add_months_lem d n v within =
    let (e, h) = add_months-total d n within v in
    (
      e,
      h,
      add_months-IsDate d n v h,
      month_index-add_months d n v h,
      day-add_months d n v h,
      lt-or-none d n v h,
    )
