-- ===== src/Prelude/Lists.antt =====
-- Lists over the native numbers.
use Prim.Native.Nat.{ℕ, suc, ◌+◌, ◌≤◌}
use mathlib.Core.Path.{◌≡◌, refl}
use mathlib.Core.Logic.{◌⊎◌}
use mathlib.Core.Bool.{Bool, true, false, ◌||◌}
use mathlib.Core.List.{List, [], ◌∷◌, ◌++◌}
use native.Mathlib.Omega.{arith}
use cron_qms.Prelude.Tests.{if◌then◌else◌}

module _ {ℓ} {A : Type ℓ} where
  abbrev pub length : List A → ℕ
  length [] = 0
  length (_ ∷ xs) = suc (length xs)

  -- A predicate by recursion computes to tuples.
  abbrev pub All {κ} : (A → Type κ) → List A → Type κ
  All P [] = Unit
  All P (x ∷ xs) = P x × All P xs

  -- Some element of the list has the property.
  abbrev pub Any : (A → Type 0) → List A → Type 0
  Any P [] = ⊥
  Any P (x ∷ xs) = P x ⊎ Any P xs

  -- `[x for x in xs if keep(x)]`
  abbrev pub filter : (A → Bool) → List A → List A
  filter keep [] = []
  filter keep (x ∷ xs) = let rest = filter keep xs in if keep x then x ∷ rest else rest

  -- `any(test(x) for x in xs)`
  abbrev pub any : (A → Bool) → List A → Bool
  any test [] = false
  any test (x ∷ xs) = test x || any test xs

  abbrev pub count : (A → Bool) → List A → ℕ
  count test [] = 0
  count test (x ∷ xs) = let rest = count test xs in if test x then suc rest else rest

  pub length-append : (xs ys : List A) → length (xs ++ ys) ≡ length xs + length ys
  length-append [] ys = omega arith
  length-append (_ ∷ xs) ys = omega (arith, length-append xs ys)

  pub All-append {κ} : (P : A → Type κ) (xs ys : List A) → All P xs → All P ys → All P (xs ++ ys)
  All-append P [] ys h k = k
  All-append P (x ∷ xs) ys h k = (h.0, All-append P xs ys h.1 k)

  pub count-le-length : (test : A → Bool) (xs : List A) → count test xs ≤ length xs
  count-le-length test [] = omega arith
  count-le-length test (x ∷ xs) = ground (arith, count-le-length test xs)

  -- One more element unless a test holds.
  pub All-unless {κ} :
      (P : A → Type κ) (b : Bool) (x : A) (xs : List A)
      → P x
      → All P xs
      → All P (if b then xs else x ∷ xs)
  All-unless P true x xs px h = h
  All-unless P false x xs px h = (px, h)

  pub All-if {κ} :
      (P : A → Type κ) (b : Bool) (x : A) (xs : List A)
      → P x
      → All P xs
      → All P (if b then x ∷ xs else xs)
  All-if P true x xs px h = (px, h)
  All-if P false x xs px h = h

  pub All-map {κ} : (P Q : A → Type κ) (xs : List A) → ((x : A) → P x → Q x) → All P xs → All Q xs
  All-map P Q [] f h = tt
  All-map P Q (x ∷ xs) f h = (f x h.0, All-map P Q xs f h.1)

  pub filter-append :
      (keep : A → Bool) (xs ys : List A) → filter keep (xs ++ ys) ≡ filter keep xs ++ filter keep ys
  filter-append keep [] ys = refl
  filter-append keep (x ∷ xs) ys = ground (arith, filter-append keep xs ys)

  pub filter-hit :
      (keep : A → Bool) (x : A) (xs : List A)
      → keep x ≡ true
      → filter keep (x ∷ xs) ≡ x ∷ filter keep xs
  filter-hit keep x xs e = rw e

  pub filter-miss :
      (keep : A → Bool) (x : A) (xs : List A)
      → keep x ≡ false
      → filter keep (x ∷ xs) ≡ filter keep xs
  filter-miss keep x xs e = rw e

  -- A selection keeps what holds of every element.
  pub All-filter {κ} :
      (P : A → Type κ) (keep : A → Bool) (xs : List A) → All P xs → All P (filter keep xs)
  All-filter P keep [] all = tt
  All-filter P keep (x ∷ xs) all =
      All-if P (keep x) x (filter keep xs) all.0 (All-filter P keep xs all.1)

  -- What is selected passes the test.
  pub filter-holds : (keep : A → Bool) (xs : List A) → All (λ x. keep x ≡ true) (filter keep xs)
  filter-holds keep [] = tt
  filter-holds keep (x ∷ xs) = ground (arith, filter-holds keep xs)

  -- A selection from a selection that drops nothing else.
  pub filter-drop :
      (keep stays : A → Bool) (xs : List A)
      → All (λ x. stays x ≡ false → keep x ≡ false) xs
      → filter keep (filter stays xs) ≡ filter keep xs
  filter-drop keep stays [] h = refl
  filter-drop keep stays (x ∷ xs) h = ground (arith, h.0, filter-drop keep stays xs h.1)
