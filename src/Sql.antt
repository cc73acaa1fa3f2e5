-- ===== src/Sql.antt =====
-- What the sources use of the SQL layer (dbx over SQLite): a table is the list of its rows.
-- An UPDATE or DELETE carries its WHERE as a test on a row. `Fault` is the choice that the
-- database makes: to run the statement, to fail in Execute with nothing written, or to write and
-- then fail in RowsAffected.
pub mod Rows
pub mod Unique
use pbvex.Base.{
  ℕ, zero, suc, Option, none, some, Bool, true, false, List, [], ◌∷◌, ◌||◌, if◌then◌else◌,
}

pub data Fault : Type 0 where
  no_fault execute_fault rows_fault : Fault

module _ {ℓ} {A : Type ℓ} where
  unfoldable pub update_rows : (A → Bool) → (A → A) → List A → List A
  update_rows p f [] = []
  update_rows p f (x ∷ xs) = (if p x then f x else x) ∷ update_rows p f xs

  unfoldable pub delete_rows : (A → Bool) → List A → List A
  delete_rows p [] = []
  delete_rows p (x ∷ xs) = let rest = delete_rows p xs in if p x then rest else x ∷ rest

  unfoldable pub count_rows : (A → Bool) → List A → ℕ
  count_rows p [] = 0
  count_rows p (x ∷ xs) = let rest = count_rows p xs in if p x then suc rest else rest

  -- The first row that passes, as a query with LIMIT 1 returns it.
  unfoldable pub find_row : (A → Bool) → List A → Option A
  find_row p [] = none
  find_row p (x ∷ xs) = let rest = find_row p xs in if p x then some x else rest

  -- Execute and RowsAffected of an UPDATE: the table after it, and the number of rows, if no error.
  unfoldable pub exec_update : Fault → (A → Bool) → (A → A) → List A → List A × Option ℕ
  exec_update no_fault p f t = (update_rows p f t, some (count_rows p t))
  exec_update execute_fault p f t = (t, none)
  exec_update rows_fault p f t = (update_rows p f t, none)

  -- ORDER BY: `before x y` says that x may stand before y; rows that tie keep the table's order.
  unfoldable pub insert_ordered : (A → A → Bool) → A → List A → List A
  insert_ordered before x [] = x ∷ []
  insert_ordered before x (y ∷ ys) =
      let rest = insert_ordered before x ys in if before x y then x ∷ y ∷ ys else y ∷ rest

  unfoldable pub order_by : (A → A → Bool) → List A → List A
  unfolding insert_ordered
  order_by before [] = []
  order_by before (x ∷ xs) = insert_ordered before x (order_by before xs)

  -- WHERE: the rows that pass.
  unfoldable pub select_rows : (A → Bool) → List A → List A
  select_rows p [] = []
  select_rows p (x ∷ xs) = let rest = select_rows p xs in if p x then x ∷ rest else rest
