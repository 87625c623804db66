-- ===== src/Services/NavConfig/JsonValues.antt =====
-- The JSON values that json.loads gives, as far as app/services/nav_config.py tells them apart. Of a
-- number only its being zero is asked.
use cron_qms.Prelude.{
  ℕ, zero, String, Bool, true, false, not, Option, none, some, List, [], ◌∷◌, str_eq, if◌then◌else◌,
}
use cron_qms.Text.{is_empty}

mutual
  pub data Json : Type 0 where
    null : Json
    truth : Bool → Json
    number : ℕ → Json
    text : String → Json
    array : Jsons → Json
    object : Members → Json

  pub data Jsons : Type 0 where
    nil : Jsons
    cons : Json → Jsons → Jsons

  pub data Members : Type 0 where
    end : Members
    member : String → Json → Members → Members

-- `d.get(name)`; the names of a dict are distinct.
abbrev pub field : String → Members → Option Json
field name end = none
field name (member other j ms) =
    let later = field name ms in if str_eq other name then some j else later

abbrev pub to_list : Jsons → List Json
to_list nil = []
to_list (cons j js) = j ∷ to_list js

abbrev pub keys : Members → List String
keys end = []
keys (member name j ms) = name ∷ keys ms

abbrev pub characters : String → List String
characters String.[] = []
characters (String.◌∷◌ c s) = String.◌∷◌ c String.[] ∷ characters s

abbrev no_elements : Jsons → Bool
no_elements nil = true
no_elements (cons _ _) = false

abbrev no_members : Members → Bool
no_members end = true
no_members (member _ _ _) = false

-- Python's truth of a value, negated
abbrev pub is_falsy : Json → Bool
is_falsy null = true
is_falsy (truth b) = not b
is_falsy (number zero) = true
is_falsy (number _) = false
is_falsy (text s) = is_empty s
is_falsy (array js) = no_elements js
is_falsy (object ms) = no_members ms
