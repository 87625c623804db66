-- ===== src/Prelude/Counts.antt =====
-- How many rows of a table pass a test, after the table is written.
use Prim.Native.Nat.{suc, ◌+◌, ◌≤◌, ◌<◌}
use mathlib.Core.Path.{◌≡◌, refl, sym, ap, ◌∙◌}
use mathlib.Core.Logic.{inl, inr, ◌↔◌}
use mathlib.Core.Bool.{Bool, true, false, ◌&&◌}
use mathlib.Core.Option.{some}
use mathlib.Core.List.{List, [], ◌∷◌, ◌++◌, map}
use native.Mathlib.Omega.{arith}
use cron_qms.Prelude.Tests.{Bool-cases, ltb}
use cron_qms.Prelude.Lists.{All, Any, any, count, filter}
use cron_qms.Prelude.Table.{first, overwrite}

true-or-false : (b : Bool) → b ≡ true → b ≡ false → ⊥
true-or-false b y n = ground arith

module _ {ℓ} {A : Type ℓ} where
  pub count-append : (p : A → Bool) (xs ys : List A) → count p (xs ++ ys) ≡ count p xs + count p ys
  count-append p [] ys = omega arith
  count-append p (x ∷ xs) ys = ground (arith, count-append p xs ys)

  pub none-count : (p : A → Bool) (xs : List A) → any p xs ≡ false → count p xs ≡ 0
  none-count p [] h = refl
  none-count p (x ∷ xs) h = ground (arith, none-count p xs)

  -- A Boolean test of a list, read as a proposition.
  pub any-Any :
      (test : A → Bool) (P : A → Type 0) (xs : List A)
      → ((x : A) → (test x ≡ true) ↔ P x)
      → (any test xs ≡ true) ↔ Any P xs
  any-Any test P [] same = (λ h. ground arith, λ h. absurd h)
  any-Any test P (x ∷ xs) same =
      let ih = any-Any test P xs same in
      elim (Bool-cases (test x)) [
        | inl e ↦ (λ h. inl ((same x).0 e), λ h. ground arith)
        | inr e ↦ (
          λ h. inr (ih.0 (ground arith)),
          λ h. elim h [
            | inl here ↦ absurd (true-or-false (test x) ((same x).1 here) e)
            | inr later ↦ let holds = ih.1 later in ground arith
          ],
        )
      ]

  pub any-All :
      (test : A → Bool) (P : A → Type 0) (xs : List A)
      → ((x : A) → (test x ≡ false) ↔ P x)
      → (any test xs ≡ false) ↔ All P xs
  any-All test P [] same = (λ h. tt, λ h. refl)
  any-All test P (x ∷ xs) same =
      let ih = any-All test P xs same in
      (
        λ h. ((same x).0 (ground arith), ih.0 (ground arith)),
        λ h. let here = (same x).1 h.0 in let rest = ih.1 h.1 in ground arith,
      )

  -- A count of selected rows is positive exactly if some row is selected and counted.
  pub count-filter-Any :
      (test keep : A → Bool) (P : A → Type 0) (xs : List A)
      → ((x : A) → ((keep x && test x) ≡ true) ↔ P x)
      → (0 < count test (filter keep xs)) ↔ Any P xs
  count-filter-Any test keep P [] same = (λ h. absurd (omega arith), λ h. absurd h)
  count-filter-Any test keep P (x ∷ xs) same =
      let ih = count-filter-Any test keep P xs same in
      elim (Bool-cases (keep x && test x)) [
        | inl e ↦ (λ h. inl ((same x).0 e), λ h. ground arith)
        | inr e ↦ (
          λ h. inr (ih.0 (ground arith)),
          λ h. elim h [
            | inl here ↦ absurd (true-or-false (keep x && test x) ((same x).1 here) e)
            | inr later ↦ let positive = ih.1 later in ground arith
          ],
        )
      ]

  -- A count of selected rows that is not positive.
  pub count-filter-All :
      (test keep : A → Bool) (P : A → Type 0) (xs : List A)
      → ((x : A) → (keep x && test x) ≡ false → P x)
      → ltb 0 (count test (filter keep xs)) ≡ false
      → All P xs
  count-filter-All test keep P [] holds h = tt
  count-filter-All test keep P (x ∷ xs) holds h =
      (holds x (ground arith), count-filter-All test keep P xs holds (ground arith))

  pub All-mapped {κ} :
      (P : A → Type κ) (f : A → A) (xs : List A)
      → ((x : A) → P x → P (f x))
      → All P xs
      → All P (map f xs)
  All-mapped P f [] keeps all = tt
  All-mapped P f (x ∷ xs) keeps all = (keeps x all.0, All-mapped P f xs keeps all.1)

  pub count-map :
      (p : A → Bool) (f : A → A) (xs : List A)
      → ((x : A) → p (f x) ≡ p x)
      → count p (map f xs) ≡ count p xs
  count-map p f [] same = refl
  count-map p f (x ∷ xs) same = ground (arith, same x, count-map p f xs same)

  pub count-map-le :
      (p q : A → Bool) (f : A → A) (xs : List A)
      → ((x : A) → p (f x) ≡ true → q x ≡ true)
      → count p (map f xs) ≤ count q xs
  count-map-le p q f [] implies = omega arith
  count-map-le p q f (x ∷ xs) implies = ground (arith, implies x, count-map-le p q f xs implies)

  module _ (p test : A → Bool) (a : A) where
    -- A write that every row of the key would count like.
    pub count-overwrite :
        (xs : List A)
        → ((x : A) → test x ≡ true → p a ≡ p x)
        → count p (overwrite test a xs) ≡ count p xs
    count-overwrite [] same = refl
    count-overwrite (x ∷ xs) same = ground (arith, same x, count-overwrite xs same)

    -- The row that is written counts like the row that was found.
    pub count-rewrite :
        (xs : List A) {x : A}
        → first test xs ≡ some x
        → p a ≡ p x
        → count p (overwrite test a xs) ≡ count p xs
    count-rewrite [] h same = refl
    count-rewrite (y ∷ ys) {x} h same = elim (Bool-cases (test y)) [
      | inl e ↦
          let y_is_x : y ≡ x = ground arith in
          let py : p a ≡ p y = same ∙ ap p (sym y_is_x) in ground arith
      | inr e ↦ let ih = count-rewrite ys {x = x} (ground arith) same in ground arith
    ]

    pub count-overwrite-drop :
        (xs : List A) → p a ≡ false → count p (overwrite test a xs) ≤ count p xs
    count-overwrite-drop [] out = omega arith
    count-overwrite-drop (x ∷ xs) out = ground (arith, count-overwrite-drop xs out)

    pub count-overwrite-suc : (xs : List A) → count p (overwrite test a xs) ≤ suc (count p xs)
    count-overwrite-suc [] = omega arith
    count-overwrite-suc (x ∷ xs) = ground (arith, count-overwrite-suc xs)

  count-both : (p q : A → Bool) (xs : List A) → count (λ x. p x && q x) xs ≤ count p xs
  count-both p q [] = omega arith
  count-both p q (x ∷ xs) = ground (arith, count-both p q xs)

  -- The only row of its key does not pass.
  pub only-count :
      (p test : A → Bool) (xs : List A) {x : A}
      → count test xs ≤ 1
      → first test xs ≡ some x
      → p x ≡ false
      → count (λ y. test y && p y) xs ≡ 0
  only-count p test [] few h out = refl
  only-count p test (y ∷ ys) {x} few h out = elim (Bool-cases (test y)) [
    | inl e ↦
        let y_is_x : y ≡ x = ground arith in
        let py : p y ≡ false = ap p y_is_x ∙ out in ground (arith, count-both test p ys)
    | inr e ↦
        let ih = only-count p test ys {x = x} (ground arith) (ground arith) out in ground arith
  ]

  pub first-map :
      (p : A → Bool) (f : A → A) (xs : List A) {x : A}
      → ((y : A) → p (f y) ≡ p y)
      → first p xs ≡ some x
      → first p (map f xs) ≡ some (f x)
  first-map p f [] same h = cc
  first-map p f (y ∷ ys) {x} same h = elim (Bool-cases (p y)) [
    | inl e ↦ let y_is_x : y ≡ x = ground arith in rw (same y, e, y_is_x)
    | inr e ↦ let ih = first-map p f ys {x = x} same (ground arith) in rw (same y, e, ih)
  ]

  -- Where no row passes, a row that is written and passes is the first to.
  pub first-written :
      (p test : A → Bool) (a : A) (xs : List A) {x : A}
      → count p xs ≡ 0
      → first test xs ≡ some x
      → p a ≡ true
      → first p (overwrite test a xs) ≡ some a
  first-written p test a [] idle h pa = cc
  first-written p test a (y ∷ ys) {x} idle h pa = elim (Bool-cases (test y)) [
    | inl e ↦ rw (e, pa)
    | inr e ↦
        let py : p y ≡ false = ground arith in
        let ih = first-written p test a ys {x = x} (ground arith) (ground arith) pa in
        rw (e, py, ih)
  ]
