-- ===== src/Routes/Nested/Found.antt =====
-- A row that is found by its key and its parent is the row of its key.
use cron_qms.Prelude.{
  ℕ, ◌≡◌, sym, subst, inl, inr, Bool-cases, true, false, some, List, [], ◌∷◌, ◌==◌, ◌&&◌, arith,
  All, first, first-All, first-holds, Error, ok,
}
use cron_qms.Core.Audit.Recorded.{DistinctIds}
use cron_qms.Db.{Db, Env}
use cron_qms.Routes.Access.{in_org}
use cron_qms.Routes.Scoped.{Scoped, key, is_row}
use cron_qms.Routes.Scoped.Writes.{IsFound}
use cron_qms.Routes.Nested.{get_child}

module _ {A : Type 0} (t : Scoped A) (parent : A → ℕ) (always : (a : A) → t.active a ≡ true) where
  first_of_key :
      (row_id parent_id : ℕ) (xs : List A) {a : A}
      → DistinctIds t.audited xs
      → first (λ x. key t x == row_id && parent x == parent_id) xs ≡ some a
      → first (is_row t row_id) xs ≡ some a
  first_of_key row_id parent_id [] ids h = cc
  first_of_key row_id parent_id (y ∷ ys) {a} ids h =
      let test = λ (x : A). key t x == row_id && parent x == parent_id in
      elim (Bool-cases (test y)) [
        | inl e ↦ ground (arith, always y)
        | inr e ↦
            let later : first test ys ≡ some a = ground arith in
            let apart = first-All (λ w. (key t y == key t w) ≡ false) test ys ids.0 later in
            let ih = first_of_key row_id parent_id ys ids.1 later in
            let is_test = first-holds test ys later in ground (arith, always y)
      ]

  -- The rows of a parent belong to the parent's organization.
  pub child-IsFound :
      (missing : Error) (env : Env) (db : Db) (parent_id row_id organization_id : ℕ) {a : A}
      → DistinctIds t.audited (t.rows db)
      → All (λ x. (parent x == parent_id) ≡ true → t.organization x ≡ organization_id) (t.rows db)
      → in_org organization_id env ≡ true
      → get_child (key t) parent missing (t.rows db) parent_id row_id ≡ ok a
      → IsFound t env db row_id a
  unfolding get_child
  child-IsFound missing env db parent_id row_id organization_id {a} ids owned mine h =
      let test = λ (x : A). key t x == row_id && parent x == parent_id in
      let found : first test (t.rows db) ≡ some a = ground arith in
      let holds = first-holds test (t.rows db) found in
      let of_org =
        first-All (λ x. (parent x == parent_id) ≡ true → t.organization x ≡ organization_id) test
          (t.rows db) owned found in
      let asked : key t a ≡ row_id = ground arith in
      record {
        asked = asked;
        found =
            subst (λ k. first (is_row t k) (t.rows db) ≡ some a) (sym asked)
              (first_of_key row_id parent_id (t.rows db) ids found);
        mine = subst (λ o. in_org o env ≡ true) (sym (of_org (ground arith))) mine;
      }
