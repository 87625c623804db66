-- ===== src/Routes/Nested.antt =====
-- Rows that belong to another row: the actions of a change, the findings of an audit, and the like.
-- They are found by their own key together with the key of their parent.
pub mod Found
pub mod Owned
pub mod Writes
pub mod Slots
use cron_qms.Prelude.{
  ℕ, suc, Option, List, [], ◌∷◌, ◌==◌, ◌&&◌, first, ltb, if◌then◌else◌, Result, Error, or_raise,
}

-- `.filter(Row.id == row_id, Row.parent_id == parent.id).first()`, or a 404
unfoldable pub get_child {ℓ} : {A : Type ℓ} → (A → ℕ) → (A → ℕ) → Error → List A → ℕ → ℕ → Result A
get_child id parent missing rows parent_id row_id =
    or_raise (first (λ a. id a == row_id && parent a == parent_id) rows) missing

-- `max((row.display_order for row in rows), default=-1) + 1`
unfoldable pub next_order : List ℕ → ℕ
next_order [] = 0
next_order (order ∷ orders) =
    let rest = next_order orders in if ltb order rest then rest else suc order
