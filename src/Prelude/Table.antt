-- ===== src/Prelude/Table.antt =====
-- A table of rows: the queries `.filter(...).first()` and the write of one row by its key.
use mathlib.Core.Path.{◌≡◌, refl, sym, ap, subst, ◌∙◌}
use mathlib.Core.Logic.{inl, inr}
use mathlib.Core.Bool.{Bool, true, false}
use mathlib.Core.Option.{Option, none, some}
use mathlib.Core.List.{List, [], ◌∷◌, ◌++◌}
use native.Mathlib.Omega.{arith}
use cron_qms.Prelude.Tests.{if◌then◌else◌, Bool-cases}
use cron_qms.Prelude.Lists.{All, filter}

module _ {ℓ} {A : Type ℓ} where
  -- `query.filter(test).first()`
  abbrev pub first : (A → Bool) → List A → Option A
  first test [] = none
  first test (x ∷ xs) = let rest = first test xs in if test x then some x else rest

  -- The write of the row that `first test` finds: the object that a query loaded is that row.
  abbrev pub overwrite : (A → Bool) → A → List A → List A
  overwrite test a [] = []
  overwrite test a (x ∷ xs) = let rest = overwrite test a xs in if test x then a ∷ xs else x ∷ rest

  pub first-holds : (test : A → Bool) (xs : List A) {a : A} → first test xs ≡ some a → test a ≡ true
  first-holds test [] h = ground arith
  first-holds test (x ∷ xs) {a} h = ground (arith, first-holds test xs {a = a})

  pub first-All {κ} :
      (P : A → Type κ) (test : A → Bool) (xs : List A) {a : A}
      → All P xs
      → first test xs ≡ some a
      → P a
  first-All P test [] all h = cc
  first-All P test (x ∷ xs) {a} all h = elim (Bool-cases (test x)) [
    | inl yes_x ↦ let e : x ≡ a = ground arith in subst P e all.0
    | inr no_x ↦ first-All P test xs all.1 (ground arith)
  ]

  pub overwrite-hit :
      (test : A → Bool) (a x : A) (xs : List A) → test x ≡ true → overwrite test a (x ∷ xs) ≡ a ∷ xs
  overwrite-hit test a x xs e = rw e

  pub overwrite-miss :
      (test : A → Bool) (a x : A) (xs : List A)
      → test x ≡ false
      → overwrite test a (x ∷ xs) ≡ x ∷ overwrite test a xs
  overwrite-miss test a x xs e = rw e

  pub overwrite-All {κ} :
      (P : A → Type κ) (test : A → Bool) (a : A) (xs : List A)
      → P a
      → All P xs
      → All P (overwrite test a xs)
  overwrite-All P test a [] pa all = tt
  overwrite-All P test a (x ∷ xs) pa all = elim (Bool-cases (test x)) [
    | inl e ↦ subst (All P) (sym (overwrite-hit test a x xs e)) (pa, all.1)
    | inr e ↦
        subst (All P) (sym (overwrite-miss test a x xs e))
          (all.0, overwrite-All P test a xs pa all.1)
  ]

  -- A selection in which the row stands neither before nor after the write does not change.
  pub filter-overwrite :
      (keep test : A → Bool) (a : A) (xs : List A) {x : A}
      → first test xs ≡ some x
      → keep x ≡ false
      → keep a ≡ false
      → filter keep (overwrite test a xs) ≡ filter keep xs
  filter-overwrite keep test a [] h kx ka = refl
  filter-overwrite keep test a (y ∷ ys) {x} h kx ka = elim (Bool-cases (test y)) [
    | inl e ↦
        let y_is_x : y ≡ x = ground arith in
        let ky : keep y ≡ false = ap keep y_is_x ∙ kx in rw (e, ka, ky)
    | inr e ↦ let ih = filter-overwrite keep test a ys {x = x} (ground arith) kx ka in ground arith
  ]

  -- A row that the query finds is found again after the write, with what was written.
  pub first-overwrite :
      (test : A → Bool) (a : A) (xs : List A) {x : A}
      → first test xs ≡ some x
      → test a ≡ true
      → first test (overwrite test a xs) ≡ some a
  first-overwrite test a [] h ta = cc
  first-overwrite test a (y ∷ ys) {x} h ta = elim (Bool-cases (test y)) [
    | inl e ↦ rw (e, ta)
    | inr e ↦ let ih = first-overwrite test a ys {x = x} (ground arith) ta in ground arith
  ]

  pub overwrite-same :
      (test test' : A → Bool) (a : A) (xs : List A)
      → ((x : A) → test x ≡ test' x)
      → overwrite test a xs ≡ overwrite test' a xs
  overwrite-same test test' a [] same = refl
  overwrite-same test test' a (x ∷ xs) same = rw (same x, overwrite-same test test' a xs same)

  -- A new last row.
  pub first-append :
      (test : A → Bool) (xs : List A) (a : A)
      → first test xs ≡ none
      → test a ≡ true
      → first test (xs ++ a ∷ []) ≡ some a
  first-append test [] a h ta = rw ta
  first-append test (x ∷ xs) a h ta = ground (arith, first-append test xs a)

  pub first-append_miss :
      (test : A → Bool) (xs : List A) (a : A)
      → test a ≡ false
      → first test (xs ++ a ∷ []) ≡ first test xs
  first-append_miss test [] a ta = rw ta
  first-append_miss test (x ∷ xs) a ta = ground (arith, first-append_miss test xs a ta)

  -- A write of a row that another query does not find, before or after.
  pub first-overwrite_miss :
      (other test : A → Bool) (a : A) (xs : List A) {x : A}
      → first test xs ≡ some x
      → other x ≡ false
      → other a ≡ false
      → first other (overwrite test a xs) ≡ first other xs
  first-overwrite_miss other test a [] h ox oa = refl
  first-overwrite_miss other test a (y ∷ ys) {x} h ox oa = elim (Bool-cases (test y)) [
    | inl e ↦
        let y_is_x : y ≡ x = ground arith in
        let oy : other y ≡ false = ap other y_is_x ∙ ox in rw (e, oa, oy)
    | inr e ↦
        let ih = first-overwrite_miss other test a ys {x = x} (ground arith) ox oa in ground arith
  ]

  -- A query that finds nothing.
  pub first-none :
      (test : A → Bool) (xs : List A) → first test xs ≡ none → All (λ x. test x ≡ false) xs
  first-none test [] h = tt
  first-none test (x ∷ xs) h = ground (arith, first-none test xs)
