-- ===== src/Core/Values.antt =====
-- The values that an audited column holds, and `_stringify` of app/core/audit.py.
use cron_qms.Prelude.{
  ℕ, String, ◌≡◌, refl, Bool, true, false, Option, none, some, ◌==◌, if◌then◌else◌, str_eq, eq_iff,
  arith,
}
use cron_qms.Dates.{Date, date_eqb}
use cron_qms.Text.{show_nat, show_date}

pub data Value : Type 0 where
  null : Value
  text : String → Value
  num : ℕ → Value
  day : Date → Value
  flag : Bool → Value

-- `_stringify`
unfoldable pub stringify : Value → Option String
unfolding show_nat show_date
stringify null = none
stringify (text s) = some s
stringify (num n) = some (show_nat n)
stringify (day d) = some (show_date d)
stringify (flag b) = some (if b then "True" else "False")

abbrev flag_eqb : Bool → Bool → Bool
flag_eqb true true = true
flag_eqb false false = true
flag_eqb _ _ = false

-- The column has changed unless the old and the new value are equal.
unfoldable pub value_eqb : Value → Value → Bool
unfolding date_eqb
value_eqb null null = true
value_eqb (text s) (text t) = str_eq s t
value_eqb (num m) (num n) = m == n
value_eqb (day d) (day e) = date_eqb d e
value_eqb (flag b) (flag c) = flag_eqb b c
value_eqb _ _ = false

pub value_eqb→eq : (v w : Value) → value_eqb v w ≡ true → v ≡ w
unfolding value_eqb
value_eqb→eq null null h = refl
value_eqb→eq (text s) (text t) h = ground (arith, eq_iff s t)
value_eqb→eq (num m) (num n) h = ground arith
value_eqb→eq (day d) (day e) h = ground arith
value_eqb→eq (flag b) (flag c) h = ground arith
value_eqb→eq v w h = ground arith

-- An optional column: None or a value.
abbrev pub opt_text : Option String → Value
opt_text none = null
opt_text (some s) = text s

abbrev pub opt_num : Option ℕ → Value
opt_num none = null
opt_num (some n) = num n

abbrev pub opt_day : Option Date → Value
opt_day none = null
opt_day (some d) = day d
