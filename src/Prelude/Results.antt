-- ===== src/Prelude/Results.antt =====
-- What a request handler answers: a value, or the exception that leaves it.
use Prim.Native.Nat.{ℕ}
use Prim.Native.String.{String}
use mathlib.Core.Path.{◌≡◌, refl}
use mathlib.Core.Bool.{Bool, true, false}
use mathlib.Core.Option.{Option, none, some}

-- `http` is an HTTPException or a WorkflowError with its status code and its message; `crash` is
-- an exception that no handler catches, which the framework answers by status 500.
pub data Error : Type 0 where
  http : ℕ → String → Error
  crash : Error

pub data Result {ℓ} (A : Type ℓ) : Type ℓ where
  err : Error → Result A
  ok : A → Result A

-- An exception skips what follows it.
infixl 5 ◌>>◌ ◌>>=◌
abbrev pub ◌>>=◌ {ℓ κ} : {X : Type ℓ} {Y : Type κ} → Result X → (X → Result Y) → Result Y
err raised >>= next = err raised
ok x >>= next = next x

abbrev pub ◌>>◌ {κ} : {Y : Type κ} → Result (Unit {0}) → Result Y → Result Y
check >> next = check >>= λ _. next

-- `if bad: raise ...`
abbrev pub raise_if : Bool → Error → Result (Unit {0})
raise_if true e = err e
raise_if false e = ok tt

abbrev pub or_raise {ℓ} : {A : Type ℓ} → Option A → Error → Result A
or_raise none e = err e
or_raise (some a) e = ok a

-- The exception that leaves a computation, and none where it returns.
abbrev pub error_of {ℓ} : {A : Type ℓ} → Result A → Option Error
error_of (ok a) = none
error_of (err e) = some e

pub >>=-eq-ok {ℓ κ} :
    {X : Type ℓ} {Y : Type κ} (first : Result X) (next : X → Result Y) {y : Y}
    → (first >>= next) ≡ ok y
    → (x : X) × (first ≡ ok x) × (next x ≡ ok y)
>>=-eq-ok (err raised) next h = cc
>>=-eq-ok (ok x) next h = (x, refl, h)

pub ok-pair {ℓ κ} :
    {A : Type ℓ} {B : Type κ} (a a' : A) (b b' : B)
    → ◌≡◌ {A = Result (A × B)} (ok (a, b)) (ok (a', b'))
    → (a ≡ a') × (b ≡ b')
ok-pair a a' b b' h = (cc, cc)

pub ok-injective {ℓ} : {X : Type ℓ} {x y : X} → ◌≡◌ {A = Result X} (ok x) (ok y) → x ≡ y
ok-injective h = cc

-- A state after an operation on it that may raise.
abbrev pub kept {ℓ} : {X : Type ℓ} → X → Result X → X
kept x (ok x') = x'
kept x (err _) = x

pub kept_cases {ℓ κ} :
    {X : Type ℓ} (P : X → Type κ) (x : X) (r : Result X)
    → P x
    → ((x' : X) → r ≡ ok x' → P x')
    → P (kept x r)
kept_cases P x (ok x') px f = f x' refl
kept_cases P x (err _) px f = px
