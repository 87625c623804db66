-- ===== src/Tests/DateTests.antt =====
-- Calendar dates, texts and targets on small inputs.
use cron_qms.Prelude.{ℕ, ◌+◌, ◌⊎◌, min, ◌≡◌, refl, true, ok, err, crash, arith}
use cron_qms.Dates.{Date, date, IsDate, days_in_month, date_ltb, add_months, add_days}
use cron_qms.Dates.Months.{month_index, add_months_lem}
use cron_qms.Text.{strip, show_nat, show_date}
use cron_qms.Core.Sla.{AreTargets, sla_target-order}

abbrev jan_31 : Date
jan_31 = date 2024 1 31

jan_31-IsDate : IsDate jan_31
unfolding days_in_month
jan_31-IsDate = omega arith

clamped : add_months jan_31 1 ≡ ok (date 2024 2 29)
unfolding add_months days_in_month
clamped = refl

past_the_end : add_months (date 9999 12 1) 1 ≡ err crash
unfolding add_months days_in_month
past_the_end = refl

a_week : add_days (date 2023 12 28) 7 ≡ ok (date 2024 1 4)
unfolding add_days days_in_month
a_week = refl

stripped : strip "  ab c " ≡ "ab c"
unfolding strip
stripped = refl

shown : show_date (date 2024 2 9) ≡ "2024-02-09"
unfolding show_date
shown = refl

shown_number : show_nat 1204 ≡ "1204"
unfolding show_nat
shown_number = refl

add_months_lem_example :
    (e : Date) × (add_months jan_31 1 ≡ ok e)
    × IsDate e
    × (month_index e ≡ 24288 + 1)
    × (e.day ≡ min 31 (days_in_month e.year e.month))
    × (◌≡◌ {A = ℕ} 1 0 ⊎ (date_ltb jan_31 e ≡ true))
add_months_lem_example = add_months_lem jan_31 1 jan_31-IsDate (ground arith)

sla_target-order_example :
    (for_critical : Date) × (for_high : Date) × (for_medium : Date) × (for_low : Date) × AreTargets
      jan_31 for_critical for_high for_medium for_low
    × ((add_days jan_31 7 ≡ ok for_critical) × (date_ltb jan_31 for_critical ≡ true))
    × ((add_days for_critical 7 ≡ ok for_high) × (date_ltb for_critical for_high ≡ true))
    × ((add_days for_high 16 ≡ ok for_medium) × (date_ltb for_high for_medium ≡ true))
    × ((add_days for_medium 30 ≡ ok for_low) × (date_ltb for_medium for_low ≡ true))
sla_target-order_example = sla_target-order jan_31 jan_31-IsDate (omega arith)
