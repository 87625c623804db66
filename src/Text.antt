-- ===== src/Text.antt =====
-- Python's texts: `str.strip`, truth of a text, and `str` of a number and of a date.
use Prim.Native.Char.{code}
use Prim.Native.String.{◌++◌}
use cron_qms.Prelude.{
  ℕ, zero, suc, ◌-◌, ◌+◌, ◌*◌, ◌/◌, ◌%◌, String, Bool, true, false, ◌&&◌, ◌||◌, Option, none, some,
  List, [], ◌∷◌, ltb, leb, ◌==◌, if◌then◌else◌,
}
use cron_qms.Dates.{Date}

-- `str.isspace` of one character, by its code point
unfoldable pub is_space : ℕ → Bool
is_space c =
    (leb 9 c && leb c 13)
    || (leb 28 c && leb c 32)
    || (c == 0x85)
    || (c == 0xa0)
    || (c == 0x1680)
    || (leb 0x2000 c && leb c 0x200a)
    || (c == 0x2028)
    || (c == 0x2029)
    || (c == 0x202f)
    || (c == 0x205f)
    || (c == 0x3000)

abbrev pub is_empty : String → Bool
is_empty String.[] = true
is_empty (String.◌∷◌ _ _) = false

unfoldable pub lstrip : String → String
unfolding is_space
lstrip String.[] = ""
lstrip (String.◌∷◌ c s) = let rest = lstrip s in if is_space (code c) then rest else String.◌∷◌ c s

unfoldable pub rstrip : String → String
unfolding is_space
rstrip String.[] = ""
rstrip (String.◌∷◌ c s) =
    let rest = rstrip s in if is_empty rest && is_space (code c) then "" else String.◌∷◌ c rest

-- `s.strip()`
unfoldable pub strip : String → String
unfolding lstrip rstrip
strip s = rstrip (lstrip s)

-- An f-string of its parts
unfoldable pub join : List String → String
join [] = ""
join (s ∷ parts) = s ++ join parts

-- `s or None`
unfoldable pub or_none : String → Option String
or_none s = if is_empty s then none else some s

digit : ℕ → String
digit d =
    if d == 0
    then "0"
    else if d == 1
    then "1"
    else if d == 2
    then "2"
    else if d == 3
    then "3"
    else if d == 4
    then "4"
    else if d == 5
    then "5"
    else if d == 6
    then "6"
    else if d == 7
    then "7"
    else if d == 8
    then "8"
    else "9"

-- A number has fewer digits than its value plus one, so that fuel is enough.
digits : ℕ → ℕ → String → String
digits zero n acc = acc
digits (suc fuel) n acc =
    let more = digits fuel (n / 10) (digit (n % 10) ++ acc) in
    if ltb n 10 then digit n ++ acc else more

-- `str(n)`
unfoldable pub show_nat : ℕ → String
unfolding digits digit
show_nat n = digits (suc n) n ""

two_digits : ℕ → String
two_digits n = digit (n / 10 % 10) ++ digit (n % 10)

-- `str(d)` of a date: YYYY-MM-DD
unfoldable pub show_date : Date → String
unfolding two_digits digit
show_date d =
    two_digits (d.year / 100)
    ++ two_digits d.year
    ++ "-"
    ++ two_digits d.month
    ++ "-"
    ++ two_digits d.day

abbrev digit_of : ℕ → Option ℕ
digit_of c = if leb 48 c && leb c 57 then some (c - 48) else none

-- The digits of `int(s)`: single underscores may stand between them.
unfoldable pub read_digits : ℕ → Bool → String → Option ℕ
read_digits n after_digit String.[] = if after_digit then some n else none
read_digits n after_digit (String.◌∷◌ c s) =
    let underscore = read_digits n false s in
    elim (digit_of (code c)) [
      | some d ↦ read_digits (n * 10 + d) true s
      | none ↦ if code c == 95 && after_digit then underscore else none
    ]

-- `int(s)` if it is positive, and 0 for every other number or error. Digits of other scripts, which
-- Python reads too, are not known here.
unfoldable pub positive_int : String → ℕ
unfolding strip read_digits
positive_int raw = positive (strip raw)
  where
    or_zero : Option ℕ → ℕ
    or_zero none = 0
    or_zero (some n) = n

    positive : String → ℕ
    positive String.[] = 0
    positive (String.◌∷◌ c s) =
        if code c == 43
        then or_zero (read_digits 0 false s)
        else or_zero (read_digits 0 false (String.◌∷◌ c s))
