-- ===== src/Core/Audit/Replay.antt =====
-- Reading the audit trail back: the rows of an entity rebuild its audited fields.
use mathlib.Core.List.{append_assoc}
use cron_qms.Prelude.{
  eq_refl, ℕ, String, ◌≡◌, refl, sym, ap, subst, ◌∙◌, inl, inr, Bool, true, false, ◌&&◌, Option,
  none, List, [], ◌∷◌, ◌++◌, if◌then◌else◌, ◌==◌, ==_refl, str_eq, eq_iff, arith, All, Bool-cases,
}
use cron_qms.Core.Values.{Value, null, text, num, day, flag, stringify, value_eqb, value_eqb→eq}
use cron_qms.Models.History.{HistoryRow}
use cron_qms.Core.Audit.{Session, Target, Fields, write, after_insert, after_update}

-- A row about one field of one target.
abbrev pub is_about : Target → String → HistoryRow → Bool
is_about t field r = str_eq r.entity_type t.entity && (r.entity_id == t.id) && str_eq r.field field

-- What one more row makes of the value of a field.
abbrev pub read_row : Target → String → Option String → HistoryRow → Option String
read_row t field value r = if is_about t field r then r.new_value else value

-- What the trail says that a field holds: the newest row's new value, starting from `value`.
unfoldable pub replay : Target → String → Option String → List HistoryRow → Option String
replay t field value [] = value
replay t field value (r ∷ rs) = replay t field (read_row t field value r) rs

-- The trail shows each field with the value that it has.
abbrev pub Shows : Target → List HistoryRow → Fields → Type 0
Shows t h fields = All (λ f. replay t f.0 none h ≡ stringify f.1) fields

-- The names of the fields differ from `name`.
abbrev pub Without : String → Fields → Type 0
Without name fields = All (λ f. str_eq f.0 name ≡ false) fields

abbrev pub Distinct : Fields → Type 0
Distinct [] = Unit
Distinct (f ∷ fields) = Without f.0 fields × Distinct fields

abbrev pub SameNames : Fields → Fields → Type 0
SameNames [] [] = Unit
SameNames (f ∷ fs) (g ∷ gs) = (f.0 ≡ g.0) × SameNames fs gs
SameNames _ _ = ⊥

pub replay-append :
    (t : Target) (name : String) (v : Option String) (xs ys : List HistoryRow)
    → replay t name v (xs ++ ys) ≡ replay t name (replay t name v xs) ys
unfolding replay
replay-append t name v [] ys = refl
replay-append t name v (x ∷ xs) ys = replay-append t name (read_row t name v x) xs ys

str_eq_sym : (a b : String) → str_eq a b ≡ false → str_eq b a ≡ false
str_eq_sym a b h = ground (arith, eq_iff a b, eq_iff b a)

module _ (s : Session) (now : ℕ) (t : Target) where
  read_row-write :
      (name : String) (old new : Value) (v : Option String)
      → read_row t name v (write s now t name old new) ≡ stringify new
  unfolding write
  read_row-write name old new v = simp (eq_refl, ==_refl)

  read_row-write_ne :
      (field name : String) (old new : Value) (v : Option String)
      → str_eq field name ≡ false
      → read_row t name v (write s now t field old new) ≡ v
  unfolding write
  read_row-write_ne field name old new v h = simp (eq_refl, ==_refl, h)

  -- An update writes a row for the first field exactly if its value changed.
  after_update-same :
      (f : String × Value) (g : String × Value) (olds news : Fields)
      → value_eqb f.1 g.1 ≡ true
      → after_update s now t (f ∷ olds) (g ∷ news) ≡ after_update s now t olds news
  unfolding after_update
  after_update-same f g olds news e = rw e

  after_update-changed :
      (f : String × Value) (g : String × Value) (olds news : Fields)
      → value_eqb f.1 g.1 ≡ false
      → after_update s now t (f ∷ olds) (g ∷ news)
        ≡ write s now t f.0 f.1 g.1 ∷ after_update s now t olds news
  unfolding after_update
  after_update-changed f g olds news e = rw e

  replay-after_update_ne :
      (name : String) (olds news : Fields) (v : Option String)
      → Without name olds
      → replay t name v (after_update s now t olds news) ≡ v
  unfolding replay
  replay-after_update_ne name [] news v h = unfold after_update in refl
  replay-after_update_ne name (f ∷ olds) [] v h = unfold after_update in refl
  replay-after_update_ne name (f ∷ olds) (g ∷ news) v h =
      let ih = replay-after_update_ne name olds news v h.1 in
      elim (Bool-cases (value_eqb f.1 g.1)) [
        | inl e ↦ rw (after_update-same f g olds news e) ih
        | inr e ↦
            ap (replay t name v) (after_update-changed f g olds news e)
            ∙ ap (λ w. replay t name w (after_update s now t olds news))
                (read_row-write_ne f.0 name f.1 g.1 v h.0)
            ∙ ih
      ]

  Shows-row :
      (h : List HistoryRow) (field : String) (old new : Value) (fields : Fields)
      → Without field fields
      → Shows t h fields
      → Shows t (h ++ write s now t field old new ∷ []) fields
  Shows-row h field old new [] apart shows = tt
  Shows-row h field old new ((name, value) ∷ fields) apart shows = (
    rw replay-append (
        unfold replay in
        rw
          (read_row-write_ne field name old new (replay t name none h)
            (str_eq_sym name field apart.0))
          shows.0),
    Shows-row h field old new fields apart.1 shows.1,
  )

  -- After an update the trail shows the new value of every field, if it showed the old ones.
  pub after_update-Shows :
      (h : List HistoryRow) (olds news : Fields)
      → SameNames olds news
      → Distinct olds
      → Shows t h olds
      → Shows t (h ++ after_update s now t olds news) news
  after_update-Shows h [] [] same distinct shows = tt
  after_update-Shows h [] (g ∷ news) same distinct shows = absurd same
  after_update-Shows h (f ∷ olds) [] same distinct shows = absurd same
  after_update-Shows h (f ∷ olds) (g ∷ news) same distinct shows =
      let rest = after_update s now t olds news in
      elim (Bool-cases (value_eqb f.1 g.1)) [
        | inl e ↦
            subst (λ rows. Shows t (h ++ rows) (g ∷ news)) (sym (after_update-same f g olds news e))
              (
                subst (λ name. replay t name none (h ++ rest) ≡ stringify g.1) same.0
                    (replay-append t f.0 none h rest
                      ∙ replay-after_update_ne f.0 olds news (replay t f.0 none h) distinct.0
                      ∙ shows.0
                      ∙ ap stringify (value_eqb→eq f.1 g.1 e)),
                after_update-Shows h olds news same.1 distinct.1 shows.1,
              )
        | inr e ↦
            let row = write s now t f.0 f.1 g.1 in
            let regroup : (h ++ row ∷ []) ++ rest ≡ h ++ row ∷ rest = simp append_assoc in
            subst (λ rows. Shows t (h ++ rows) (g ∷ news))
              (sym (after_update-changed f g olds news e))
              (subst (λ rows. Shows t rows (g ∷ news)) regroup
                (
                  subst (λ name. replay t name none ((h ++ row ∷ []) ++ rest) ≡ stringify g.1)
                      same.0
                      (replay-append t f.0 none (h ++ row ∷ []) rest
                        ∙ replay-after_update_ne f.0 olds news _ distinct.0
                        ∙ replay-append t f.0 none h (row ∷ [])
                        ∙ (unfold replay in read_row-write f.0 f.1 g.1 (replay t f.0 none h))),
                  after_update-Shows (h ++ row ∷ []) olds news same.1 distinct.1
                      (Shows-row h f.0 f.1 g.1 olds distinct.0 shows.1),
                ))
      ]

-- The fields of a row before it is inserted.
abbrev pub nulls : Fields → Fields
nulls [] = []
nulls (f ∷ fields) = (f.0, null) ∷ nulls fields

SameNames-nulls : (fields : Fields) → SameNames (nulls fields) fields
SameNames-nulls [] = tt
SameNames-nulls (f ∷ fields) = (refl, SameNames-nulls fields)

Without-nulls :
    (name : String) (fields : Fields) → Without name fields → Without name (nulls fields)
Without-nulls name [] h = tt
Without-nulls name (f ∷ fields) h = (h.0, Without-nulls name fields h.1)

Distinct-nulls : (fields : Fields) → Distinct fields → Distinct (nulls fields)
Distinct-nulls [] h = tt
Distinct-nulls (f ∷ fields) h = (Without-nulls f.0 fields h.0, Distinct-nulls fields h.1)

module _ (s : Session) (now : ℕ) (t : Target) where
  -- An insert is an update from nulls.
  after_insert-eq-after_update :
      (fields : Fields) → after_insert s now t fields ≡ after_update s now t (nulls fields) fields
  unfolding after_insert after_update
  after_insert-eq-after_update [] = refl
  after_insert-eq-after_update ((name, null) ∷ fields) = after_insert-eq-after_update fields
  after_insert-eq-after_update ((name, text x) ∷ fields) =
      ap (λ rest. write s now t name null (text x) ∷ rest) (after_insert-eq-after_update fields)
  after_insert-eq-after_update ((name, num x) ∷ fields) =
      ap (λ rest. write s now t name null (num x) ∷ rest) (after_insert-eq-after_update fields)
  after_insert-eq-after_update ((name, day x) ∷ fields) =
      ap (λ rest. write s now t name null (day x) ∷ rest) (after_insert-eq-after_update fields)
  after_insert-eq-after_update ((name, flag x) ∷ fields) =
      ap (λ rest. write s now t name null (flag x) ∷ rest) (after_insert-eq-after_update fields)

  -- After an insert the trail shows every field, if it had shown nothing of the row.
  pub after_insert-Shows :
      (h : List HistoryRow) (fields : Fields)
      → Distinct fields
      → Shows t h (nulls fields)
      → Shows t (h ++ after_insert s now t fields) fields
  after_insert-Shows h fields distinct nothing =
      subst (λ rows. Shows t (h ++ rows) fields) (sym (after_insert-eq-after_update fields))
        (after_update-Shows s now t h (nulls fields) fields (SameNames-nulls fields)
          (Distinct-nulls fields distinct) nothing)

-- An empty trail shows a row that is not inserted.
pub Shows-nil : (t : Target) (fields : Fields) → Shows t [] (nulls fields)
unfolding replay
Shows-nil t [] = tt
Shows-nil t (f ∷ fields) = (unfold stringify in refl, Shows-nil t fields)
