-- ===== src/Dates.antt =====
-- Calendar dates: Python's `datetime.date` and `calendar.monthrange` as far as the program uses
-- them, and `add_months` of app/services/document_workflow.py. A date past year 9999 raises.
pub mod Order
pub mod Months
pub mod Days
use cron_qms.Prelude.{
  ℕ, zero, suc, ◌+◌, ◌-◌, ◌*◌, ◌/◌, ◌%◌, ◌≤◌, min, ◌≡◌, Bool, true, false, not, ◌||◌, ◌&&◌, ltb,
  leb, ◌==◌, if◌then◌else◌, Result, ok, err, crash, ◌>>=◌,
}

-- `datetime.MAXYEAR`
abbrev pub max_year : ℕ
max_year = 9999

pub record Date : Type 0 where
  pub year : ℕ
  pub month : ℕ
  pub day : ℕ

abbrev pub date : ℕ → ℕ → ℕ → Date
date year month day = record { year = year; month = month; day = day }

-- `calendar.isleap`
unfoldable pub is_leap : ℕ → Bool
is_leap year = (year % 4 == 0) && (not (year % 100 == 0) || (year % 400 == 0))

-- `calendar.monthrange(year, month)[1]`
unfoldable pub days_in_month : ℕ → ℕ → ℕ
unfolding is_leap
days_in_month year month =
    if (month == 4) || (month == 6) || (month == 9) || (month == 11)
    then 30
    else if not (month == 2)
    then 31
    else if is_leap year
    then 29
    else 28

pub record IsDate (d : Date) : Type 0 where
  pub year_from : 1 ≤ d.year
  pub year_to : d.year ≤ max_year
  pub month_from : 1 ≤ d.month
  pub month_to : d.month ≤ 12
  pub day_from : 1 ≤ d.day
  pub day_to : d.day ≤ days_in_month d.year d.month

-- `a < b` on dates
unfoldable pub date_ltb : Date → Date → Bool
date_ltb a b =
    if ltb a.year b.year
    then true
    else if ltb b.year a.year
    then false
    else if ltb a.month b.month
    then true
    else if ltb b.month a.month
    then false
    else ltb a.day b.day

-- `a == b` on dates
unfoldable pub date_eqb : Date → Date → Bool
date_eqb a b =
    if a.year == b.year then (if a.month == b.month then a.day == b.day else false) else false

-- The last step of `add_months`, `date(year, month, day)`; months are never negative here.
unfoldable pub add_months : Date → ℕ → Result Date
add_months start months =
    let zero_based = start.month - 1 + months in
    let y = start.year + zero_based / 12 in
    let m = zero_based % 12 + 1 in
    if ltb max_year y then err crash else ok (date y m (min start.day (days_in_month y m)))

-- `d + timedelta(days=1)`
unfoldable pub next_day : Date → Result Date
next_day d =
    if ltb d.day (days_in_month d.year d.month)
    then ok (record d { day = d.day + 1 })
    else if ltb d.month 12
    then ok (date d.year (d.month + 1) 1)
    else if leb max_year d.year
    then err crash
    else ok (date (d.year + 1) 1 1)

-- `d + timedelta(days=n)`
unfoldable pub add_days : Date → ℕ → Result Date
unfolding next_day
add_days d zero = ok d
add_days d (suc n) = next_day d >>= λ e. add_days e n
