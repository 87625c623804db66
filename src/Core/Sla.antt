-- ===== src/Core/Sla.antt =====
-- app/core/sla.py: target dates from priorities.
use cron_qms.Prelude.{ℕ, suc, ◌+◌, ◌<◌, ◌≤◌, arith, ◌≡◌, sym, ◌∙◌, true, Result, ok}
use cron_qms.Dates.{Date, max_year, IsDate, date_ltb, add_days}
use cron_qms.Dates.Months.{days_in_month_bounds}
use cron_qms.Dates.Days.{add_days-total, add_days-IsDate, add_days-add, lt-add_days}
use cron_qms.Models.Event.{EventPriority, low, medium, high, critical}

-- `sla_days`, by `SLA_DAYS`
unfoldable pub sla_days : EventPriority → ℕ
sla_days critical = 7
sla_days high = 14
sla_days medium = 30
sla_days low = 60

unfoldable pub sla_target : EventPriority → Date → Result Date
unfolding sla_days
sla_target priority start = add_days start (sla_days priority)

module _ (start : Date) (v : IsDate start) (within : start.year < max_year) where
  target_exists : (n : ℕ) → n ≤ 60 → (target : Date) × (add_days start n ≡ ok target)
  target_exists n few =
      add_days-total start n v (ground (arith, days_in_month_bounds start.year start.month))

-- A later count of days gives a later date.
later :
    (start : Date) (n k : ℕ) {d e : Date}
    → IsDate start
    → add_days start n ≡ ok d
    → add_days start (n + suc k) ≡ ok e
    → (add_days d (suc k) ≡ ok e) × (date_ltb d e ≡ true)
later start n k {d} {e} v h h' =
    let rest : add_days d (suc k) ≡ ok e = sym (add_days-add start n (suc k) h) ∙ h' in
    (rest, lt-add_days d k (add_days-IsDate start n v h) rest)

-- The target dates of the four priorities from one start
pub record AreTargets (start for_critical for_high for_medium for_low : Date) : Type 0 where
  pub critical_is : sla_target critical start ≡ ok for_critical
  pub high_is : sla_target high start ≡ ok for_high
  pub medium_is : sla_target medium start ≡ ok for_medium
  pub low_is : sla_target low start ≡ ok for_low

-- From a date of the calendar before the last year that there is, every priority gives a target.
-- The more urgent priority has the earlier target, and all of them lie after the start: the target
-- of Critical a week after it, that of High a week after that of Critical, that of Medium 16 days
-- after that of High, and that of Low 30 days after that of Medium.
pub sla_target-order :
    (start : Date)
    → IsDate start
    → start.year < max_year
    → (for_critical : Date) × (for_high : Date) × (for_medium : Date) × (for_low : Date)
      × AreTargets start for_critical for_high for_medium for_low
      × ((add_days start 7 ≡ ok for_critical) × (date_ltb start for_critical ≡ true))
      × ((add_days for_critical 7 ≡ ok for_high) × (date_ltb for_critical for_high ≡ true))
      × ((add_days for_high 16 ≡ ok for_medium) × (date_ltb for_high for_medium ≡ true))
      × ((add_days for_medium 30 ≡ ok for_low) × (date_ltb for_medium for_low ≡ true))
unfolding sla_target
sla_target-order start v within =
    let (c, c_is) = target_exists start v within 7 (omega arith) in
    let (h, h_is) = target_exists start v within 14 (omega arith) in
    let (m, m_is) = target_exists start v within 30 (omega arith) in
    let (l, l_is) = target_exists start v within 60 (omega arith) in
    (
      c,
      h,
      m,
      l,
      record { critical_is = c_is; high_is = h_is; medium_is = m_is; low_is = l_is },
      (c_is, lt-add_days start 6 v c_is),
      later start 7 6 v c_is h_is,
      later start 14 15 v h_is m_is,
      later start 30 29 v m_is l_is,
    )
