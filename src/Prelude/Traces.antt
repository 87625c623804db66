-- ===== src/Prelude/Traces.antt =====
-- Histories: a step function over a list of actions.
use mathlib.Core.Path.{◌≡◌}
use mathlib.Core.Logic.{◌⊎◌, inl, inr}
use mathlib.Core.Bool.{Bool, true, ◌||◌}
use mathlib.Core.List.{List, [], ◌∷◌}
use native.Mathlib.Omega.{arith}
use cron_qms.Prelude.Tests.{Bool-cases}

module _ {ℓ} {S A : Type ℓ} (step : S → A → S) where
  unfoldable pub run : S → List A → S
  run s [] = s
  run s (a ∷ rest) = run (step s a) rest

  -- Whether a test holds at the start or after some of the actions.
  unfoldable pub visits : (S → Bool) → S → List A → Bool
  visits test s [] = test s
  visits test s (a ∷ rest) = test s || visits test (step s a) rest

  -- What every step keeps, every history keeps.
  pub run_induction {κ} :
      (P : S → Type κ)
      → ((s : S) (a : A) → P s → P (step s a))
      → (s : S) (actions : List A) → P s
      → P (run s actions)
  unfolding run
  run_induction P keeps s [] h = h
  run_induction P keeps s (a ∷ rest) h = run_induction P keeps (step s a) rest (keeps s a h)

  pub run-visits :
      (test : S → Bool) (s : S) (actions : List A)
      → test (run s actions) ≡ true
      → visits test s actions ≡ true
  unfolding run visits
  run-visits test s [] h = h
  run-visits test s (a ∷ rest) h = ground (arith, run-visits test (step s a) rest h)

  -- What is only entered from another place is not visited without the other.
  pub visits-before :
      (test before : S → Bool)
      → ((s : S) (a : A) → test (step s a) ≡ true → (test s ≡ true) ⊎ (before s ≡ true))
      → (s : S) (actions : List A) → visits test s actions ≡ true
      → (test s ≡ true) ⊎ (visits before s actions ≡ true)
  unfolding visits
  visits-before test before entered s [] h = inl h
  visits-before test before entered s (a ∷ rest) h = elim (Bool-cases (test s)) [
    | inl y ↦ inl y
    | inr n ↦
        let ih = visits-before test before entered (step s a) rest (ground arith) in
        ground (arith, entered s a)
  ]
