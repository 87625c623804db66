-- ===== src/Dates/Order.antt =====
-- The order of dates is a strict total order on the three numbers of a date.
use cron_qms.Prelude.{◌≡◌, true, false, arith}
use cron_qms.Dates.{Date, date_ltb, date_eqb}

pub date_ltb_irrefl : (a : Date) → date_ltb a a ≡ false
unfolding date_ltb
date_ltb_irrefl a = ground arith

pub date_ltb_trans :
    (a b c : Date) → date_ltb a b ≡ true → date_ltb b c ≡ true → date_ltb a c ≡ true
unfolding date_ltb
date_ltb_trans a b c h k = ground arith

pub date_ltb_asymm : (a b : Date) → date_ltb a b ≡ true → date_ltb b a ≡ false
unfolding date_ltb
date_ltb_asymm a b h = ground arith

pub date_eqb→eq : (a b : Date) → date_eqb a b ≡ true → a ≡ b
unfolding date_eqb
date_eqb→eq a b h = ground arith

pub date_eqb_refl : (a : Date) → date_eqb a a ≡ true
unfolding date_eqb
date_eqb_refl a = ground arith
