-- ===== src/Sql.antt =====
-- The SQL that the repositories send: WHERE, ORDER BY ... DESC and LIMIT over a table's rows. Rows
-- with the same key stay in the order of the table, which Postgres leaves open.
pub mod Newest
use drive_power.Prelude.{ℕ, List, [], ◌∷◌, Bool, ltb, if◌then◌else◌, select, take}

module _ {ℓ} {A : Type ℓ} (key : A → ℕ) where
  unfoldable pub insert_desc : A → List A → List A
  insert_desc x [] = x ∷ []
  insert_desc x (y ∷ ys) = if ltb (key y) (key x) then x ∷ y ∷ ys else y ∷ insert_desc x ys

  -- ORDER BY key DESC
  unfoldable pub order_by_desc : List A → List A
  order_by_desc [] = []
  order_by_desc (x ∷ xs) = insert_desc x (order_by_desc xs)

  -- WHERE p ORDER BY key DESC LIMIT n
  unfoldable pub query_desc : (A → Bool) → ℕ → List A → List A
  query_desc p n rows = take n (order_by_desc (select p rows))
