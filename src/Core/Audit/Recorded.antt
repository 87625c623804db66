-- ===== src/Core/Audit/Recorded.antt =====
-- A table whose rows are audited: the trail shows every row as it stands in the table. The
-- interface `Audited` is what a model declares for `register_auditing`.
use cron_qms.Prelude.{
  eq_refl, ℕ, String, ◌≡◌, refl, sym, ap, subst, ◌∙◌, inl, inr, Bool, true, false, some, List, [],
  ◌∷◌, ◌++◌, ◌==◌, arith, All, All-append, All-map, All-filter, filter, filter-holds, filter-hit,
  filter-miss, not, first, first-All, overwrite, overwrite-All, overwrite-hit, overwrite-miss,
  Bool-cases,
}
use cron_qms.Models.History.{HistoryRow}
use cron_qms.Core.Audit.{Session, Target, Fields, after_insert, after_update, after_delete}
use cron_qms.Core.Audit.Replay.{
  Shows, SameNames, Distinct, after_update-Shows, after_insert-Shows, nulls,
}
use cron_qms.Core.Audit.Rows.{
  IsStamped, after_update-IsStamped, after_insert-IsStamped, after_delete-IsStamped, same_target,
  Shows-other,
}

-- `__audit_entity__`, the primary key, and `__audit_fields__` with the values of the columns.
pub record Audited (A : Type 0) : Type 0 where
  pub entity : String
  pub id : A → ℕ
  pub fields : A → Fields
  pub same_names : (a b : A) → SameNames (fields a) (fields b)
  pub distinct : (a : A) → Distinct (fields a)

module _ {A : Type 0} (m : Audited A) where
  abbrev pub target : A → Target
  target a = record { entity = m.entity; id = m.id a }

  -- The primary keys of a table are distinct.
  abbrev pub DistinctIds : List A → Type 0
  DistinctIds [] = Unit
  DistinctIds (x ∷ xs) = All (λ y. (m.id x == m.id y) ≡ false) xs × DistinctIds xs

  abbrev pub IsRecorded : List HistoryRow → List A → Type 0
  IsRecorded h xs = All (λ a. Shows (target a) h (m.fields a)) xs

  others-IsRecorded :
      (s : Session) (now : ℕ) (t : Target) (h rows : List HistoryRow) (xs : List A)
      → All (IsStamped s now t) rows
      → All (λ y. same_target t (target y) ≡ false) xs
      → IsRecorded h xs
      → IsRecorded (h ++ rows) xs
  others-IsRecorded s now t h rows [] stamped apart rec = tt
  others-IsRecorded s now t h rows (x ∷ xs) stamped apart rec = (
    Shows-other s now t (target x) h rows (m.fields x) apart.0 stamped rec.0,
    others-IsRecorded s now t h rows xs stamped apart.1 rec.1,
  )

  apart_of_ids :
      (x : A) (k : ℕ) (xs : List A)
      → m.id x ≡ k
      → All (λ y. (k == m.id y) ≡ false) xs
      → All (λ y. same_target (target x) (target y) ≡ false) xs
  apart_of_ids x k [] e h = tt
  apart_of_ids x k (y ∷ ys) e h = (ground (arith, eq_refl m.entity, h.0), apart_of_ids x k ys e h.1)

  -- An update of the row that a query found keeps the table recorded.
  pub update-IsRecorded :
      (s : Session) (now : ℕ) (test : A → Bool) (new x : A) (h : List HistoryRow) (xs : List A)
      → first test xs ≡ some x
      → m.id new ≡ m.id x
      → DistinctIds xs
      → IsRecorded h xs
      → IsRecorded
          (h ++ after_update s now (target x) (m.fields x) (m.fields new))
          (overwrite test new xs)
  update-IsRecorded s now test new x h [] found same ids rec = cc
  update-IsRecorded s now test new x h (y ∷ ys) found same ids rec =
      let rows = after_update s now (target x) (m.fields x) (m.fields new) in
      let stamped = after_update-IsStamped s now (target x) (m.fields x) (m.fields new) in
      elim (Bool-cases (test y)) [
        | inl e ↦
            let y_is_x : y ≡ x = ground arith in
            subst (IsRecorded (h ++ rows)) (sym (overwrite-hit test new y ys e)) (
              subst (λ k. Shows (record { entity = m.entity; id = k }) (h ++ rows) (m.fields new))
                  (sym same)
                  (after_update-Shows s now (target x) h (m.fields x) (m.fields new)
                    (m.same_names x new) (m.distinct x)
                    (subst (λ z. Shows (target z) h (m.fields z)) y_is_x rec.0)),
              others-IsRecorded s now (target x) h rows ys stamped
                  (apart_of_ids x (m.id y) ys (ap m.id (sym y_is_x)) ids.0) rec.1,
            )
        | inr e ↦
            let found_later : first test ys ≡ some x = ground arith in
            let apart = first-All (λ z. (m.id y == m.id z) ≡ false) test ys ids.0 found_later in
            subst (IsRecorded (h ++ rows)) (sym (overwrite-miss test new y ys e)) (
              Shows-other s now (target x) (target y) h rows (m.fields y)
                  (ground (arith, eq_refl m.entity)) stamped rec.0,
              update-IsRecorded s now test new x h ys found_later same ids.1 rec.1,
            )
      ]

  -- So does an insert of a row with a new key of which the trail says nothing.
  pub insert-IsRecorded :
      (s : Session) (now : ℕ) (new : A) (h : List HistoryRow) (xs : List A)
      → All (λ y. (m.id new == m.id y) ≡ false) xs
      → Shows (target new) h (nulls (m.fields new))
      → IsRecorded h xs
      → IsRecorded (h ++ after_insert s now (target new) (m.fields new)) (xs ++ new ∷ [])
  insert-IsRecorded s now new h xs fresh nothing rec =
      let rows = after_insert s now (target new) (m.fields new) in
      All-append (λ a. Shows (target a) (h ++ rows) (m.fields a)) xs (new ∷ [])
        (others-IsRecorded s now (target new) h rows xs
          (after_insert-IsStamped s now (target new) (m.fields new))
          (apart_of_ids new (m.id new) xs refl fresh) rec)
        (after_insert-Shows s now (target new) h (m.fields new) (m.distinct new) nothing, tt)

  -- So does a hard delete of the rows of a key.
  pub remove-IsRecorded :
      (s : Session) (now : ℕ) (old : A) (h : List HistoryRow) (xs : List A)
      → IsRecorded h xs
      → IsRecorded
          (h ++ after_delete s now (target old))
          (filter (λ a. not (m.id a == m.id old)) xs)
  remove-IsRecorded s now old h xs rec =
      let stays : A → Bool = λ a. not (m.id a == m.id old) in
      others-IsRecorded s now (target old) h (after_delete s now (target old)) (filter stays xs)
        (after_delete-IsStamped s now (target old))
        (apart_of_ids old (m.id old) (filter stays xs) refl (
          All-map (λ y. stays y ≡ true) (λ y. (m.id old == m.id y) ≡ false) (filter stays xs)
            (λ y h. ground arith) (filter-holds stays xs)))
        (All-filter (λ a. Shows (target a) h (m.fields a)) stays xs rec)

  pub filter-DistinctIds :
      (keep : A → Bool) (xs : List A) → DistinctIds xs → DistinctIds (filter keep xs)
  filter-DistinctIds keep [] ids = tt
  filter-DistinctIds keep (x ∷ xs) ids =
      let later = All-filter (λ y. (m.id x == m.id y) ≡ false) keep xs ids.0 in
      let rest = filter-DistinctIds keep xs ids.1 in
      elim (Bool-cases (keep x)) [
        | inl e ↦ subst DistinctIds (sym (filter-hit keep x xs e)) (later, rest)
        | inr e ↦ subst DistinctIds (sym (filter-miss keep x xs e)) rest
      ]

  -- The keys stay distinct.
  pub overwrite-DistinctIds :
      (test : A → Bool) (new x : A) (xs : List A)
      → first test xs ≡ some x
      → m.id new ≡ m.id x
      → DistinctIds xs
      → DistinctIds (overwrite test new xs)
  overwrite-DistinctIds test new x [] found same ids = tt
  overwrite-DistinctIds test new x (y ∷ ys) found same ids = elim (Bool-cases (test y)) [
    | inl e ↦
        let y_is_x : y ≡ x = ground arith in
        let same_key : m.id y ≡ m.id new = ap m.id y_is_x ∙ sym same in
        subst DistinctIds (sym (overwrite-hit test new y ys e))
          (subst (λ k. All (λ z. (k == m.id z) ≡ false) ys) same_key ids.0, ids.1)
    | inr e ↦
        let found_later : first test ys ≡ some x = ground arith in
        let apart = first-All (λ z. (m.id y == m.id z) ≡ false) test ys ids.0 found_later in
        subst DistinctIds (sym (overwrite-miss test new y ys e)) (
          overwrite-All (λ z. (m.id y == m.id z) ≡ false) test new ys
              (subst (λ k. (m.id y == k) ≡ false) (sym same) apart) ids.0,
          overwrite-DistinctIds test new x ys found_later same ids.1,
        )
  ]

  pub append-DistinctIds :
      (new : A) (xs : List A)
      → All (λ y. (m.id new == m.id y) ≡ false) xs
      → DistinctIds xs
      → DistinctIds (xs ++ new ∷ [])
  append-DistinctIds new [] fresh ids = (tt, tt)
  append-DistinctIds new (y ∷ ys) fresh ids = (
    All-append (λ z. (m.id y == m.id z) ≡ false) ys (new ∷ []) ids.0 (ground arith, tt),
    append-DistinctIds new ys fresh.1 ids.1,
  )
