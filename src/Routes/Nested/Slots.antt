-- ===== src/Routes/Nested/Slots.antt =====
-- The display orders of the child rows of one parent.
use cron_qms.Prelude.{
  ℕ, ◌≡◌, sym, subst, inl, inr, Bool, Bool-cases, true, false, ◌&&◌, ◌≤◌, ◌<◌, some, List, [], ◌∷◌,
  ◌++◌, ◌==◌, arith, map, filter, filter-hit, filter-miss, All, All-append, All-filter, All-map,
  first, first-All, overwrite, overwrite-All, overwrite-hit, overwrite-miss,
}
use cron_qms.Routes.Nested.{next_order}

module _ {A : Type 0} (parent order : A → ℕ) where
  abbrev pub same_slot : A → A → Bool
  same_slot a b = parent a == parent b && order a == order b

  -- No two rows of a parent have the same order.
  abbrev pub DistinctSlots : List A → Type 0
  DistinctSlots [] = Unit
  DistinctSlots (x ∷ xs) = All (λ y. same_slot x y ≡ false) xs × DistinctSlots xs

  abbrev orders_of : ℕ → List A → List ℕ
  orders_of p xs = map order (filter (λ x. parent x == p) xs)

  next_order-above :
      (p k : ℕ) (xs : List A)
      → next_order (orders_of p xs) ≤ k
      → All (λ y. (parent y == p) ≡ true → order y < k) xs
  unfolding next_order
  next_order-above p k [] h = tt
  next_order-above p k (x ∷ xs) h = elim (Bool-cases (parent x == p)) [
    | inl e ↦ (λ is. ground arith, next_order-above p k xs (ground arith))
    | inr e ↦ (λ is. ground arith, next_order-above p k xs (ground arith))
  ]

  append-DistinctSlots :
      (new : A) (xs : List A)
      → All (λ y. (parent y == parent new) ≡ true → order y < order new) xs
      → DistinctSlots xs
      → DistinctSlots (xs ++ new ∷ [])
  append-DistinctSlots new [] above slots = (tt, tt)
  append-DistinctSlots new (y ∷ ys) above slots = (
    All-append (λ z. same_slot y z ≡ false) ys (new ∷ []) slots.0
        (
          elim (Bool-cases (parent y == parent new)) [
            | inl e ↦ let lower = above.0 e in ground arith
            | inr e ↦ ground arith
          ],
          tt,
        ),
    append-DistinctSlots new ys above.1 slots.1,
  )

  -- A row takes a slot that no row has.
  pub free-DistinctSlots :
      (new : A) (xs : List A)
      → All (λ y. same_slot y new ≡ false) xs
      → DistinctSlots xs
      → DistinctSlots (xs ++ new ∷ [])
  free-DistinctSlots new [] free slots = (tt, tt)
  free-DistinctSlots new (y ∷ ys) free slots = (
    All-append (λ z. same_slot y z ≡ false) ys (new ∷ []) slots.0 (free.0, tt),
    free-DistinctSlots new ys free.1 slots.1,
  )

  -- A row with the next order of its parent takes a slot of its own.
  pub next-DistinctSlots :
      (new : A) (xs : List A)
      → order new ≡ next_order (orders_of (parent new) xs)
      → DistinctSlots xs
      → DistinctSlots (xs ++ new ∷ [])
  next-DistinctSlots new xs is_next slots =
      append-DistinctSlots new xs
        (next_order-above (parent new) (order new) xs (omega (arith, is_next))) slots

  pub filter-DistinctSlots :
      (keep : A → Bool) (xs : List A) → DistinctSlots xs → DistinctSlots (filter keep xs)
  filter-DistinctSlots keep [] slots = tt
  filter-DistinctSlots keep (x ∷ xs) slots =
      let later = All-filter (λ y. same_slot x y ≡ false) keep xs slots.0 in
      let rest = filter-DistinctSlots keep xs slots.1 in
      elim (Bool-cases (keep x)) [
        | inl e ↦ subst DistinctSlots (sym (filter-hit keep x xs e)) (later, rest)
        | inr e ↦ subst DistinctSlots (sym (filter-miss keep x xs e)) rest
      ]

  -- A row that is written in its own slot.
  pub overwrite-DistinctSlots :
      (test : A → Bool) (new x : A) (xs : List A)
      → first test xs ≡ some x
      → parent new ≡ parent x
      → order new ≡ order x
      → DistinctSlots xs
      → DistinctSlots (overwrite test new xs)
  overwrite-DistinctSlots test new x [] found same_parent same_order slots = tt
  overwrite-DistinctSlots test new x (y ∷ ys) found same_parent same_order slots =
      elim (Bool-cases (test y)) [
        | inl e ↦
            let y_is_x : y ≡ x = ground arith in
            let x_apart = subst (λ w. All (λ z. same_slot w z ≡ false) ys) y_is_x slots.0 in
            subst DistinctSlots (sym (overwrite-hit test new y ys e)) (
              All-map (λ z. same_slot x z ≡ false) (λ z. same_slot new z ≡ false) ys
                  (λ z apart. rw (same_parent, same_order) apart) x_apart,
              slots.1,
            )
        | inr e ↦
            let later : first test ys ≡ some x = ground arith in
            let apart = first-All (λ z. same_slot y z ≡ false) test ys slots.0 later in
            subst DistinctSlots (sym (overwrite-miss test new y ys e)) (
              overwrite-All (λ z. same_slot y z ≡ false) test new ys
                  (rw (same_parent, same_order) apart) slots.0,
              overwrite-DistinctSlots test new x ys later same_parent same_order slots.1,
            )
      ]
