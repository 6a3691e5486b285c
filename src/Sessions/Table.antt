-- ===== src/Sessions/Table.antt =====
-- The table `charging_sessions` under the statements of the repository.
use mathlib.Core.Option
use mathlib.Core.Path.{◌≡◌, refl}
use drive_power.Prelude.{
  ℕ, ◌<◌, ◌≤◌, String, List, [], ◌∷◌, none, some, true, false, ◌==◌, ==_iff, string_eq, nat_eq,
  if◌then◌else◌, arith, Bool-cases, inl, inr, length, select, All,
}
use drive_power.Sessions.Model.{Row, Station}
use drive_power.Sessions.Repo.{find_row, update_row, has_station}

module _ {R : Type 0} where
  abbrev pub KeepsKeys : (Row R → Row R) → Type 0
  KeepsKeys f = (r : Row R) → ((f r).transaction ≡ r.transaction) × ((f r).id ≡ r.id)

  pub find_row-update_row :
      (t k : String) (f : Row R → Row R) (rows : List (Row R))
      → KeepsKeys f
      → find_row k (update_row t f rows)
        ≡ (if t == k then Option.map f (find_row k rows) else find_row k rows)
  unfolding find_row update_row
  find_row-update_row t k f [] keeps = ground arith
  find_row-update_row t k f (r ∷ rs) keeps = ground (
    arith,
    find_row-update_row t k f rs keeps,
    (keeps r).0,
    ==_iff r.transaction t,
    ==_iff r.transaction k,
    ==_iff t k,
  )

  pub length-update_row :
      (t : String) (f : Row R → Row R) (rows : List (Row R))
      → length (update_row t f rows) ≡ length rows
  unfolding update_row
  length-update_row t f [] = refl
  length-update_row t f (r ∷ rs) = ground (arith, length-update_row t f rs)

  -- A transaction id that is not in the table: the update finds no row, and changes none.
  pub update_row-missing :
      (t : String) (f : Row R → Row R) (rows : List (Row R))
      → find_row t rows ≡ none
      → (update_row t f rows ≡ rows) × (length (select (λ r. r.transaction == t) rows) ≡ 0)
  unfolding find_row update_row select
  update_row-missing t f [] h = (refl, refl)
  update_row-missing t f (r ∷ rs) h = elim (Bool-cases (r.transaction == t)) [
    | inl e ↦ absurd (ground arith)
    | inr e ↦
        let (same, count) = update_row-missing t f rs (ground arith) in (ground arith, ground arith)
  ]

  pub affected-pos :
      (t : String) (rows : List (Row R)) (r : Row R)
      → find_row t rows ≡ some r
      → (length (select (λ x. x.transaction == t) rows) == 0) ≡ false
  unfolding find_row select
  affected-pos t [] r h = cc
  affected-pos t (x ∷ xs) r h = elim (Bool-cases (x.transaction == t)) [
    | inl e ↦ rw e (ground arith)
    | inr e ↦ rw e (affected-pos t xs r (rw e at h))
  ]

  -- No two rows have the same transaction id.
  abbrev pub IsUnique : List (Row R) → Type 0
  IsUnique [] = Unit
  IsUnique (r ∷ rs) = (find_row r.transaction rs ≡ none) × IsUnique rs

  -- Ids fall along the table, from below `n`: so they are distinct and were given in order.
  abbrev pub IsBelow : ℕ → List (Row R) → Type 0
  IsBelow n [] = Unit
  IsBelow n (r ∷ rs) = (r.id < n) × IsBelow r.id rs

  abbrev pub HasStation : List Station → Row R → Type 0
  HasStation stations r = has_station r.station_id stations ≡ true

  pub IsBelow-le : (m n : ℕ) (rows : List (Row R)) → IsBelow m rows → m ≤ n → IsBelow n rows
  IsBelow-le m n [] h le = tt
  IsBelow-le m n (r ∷ rs) (lt, h) le = (omega arith, h)

  pub update_row-IsBelow :
      (t : String) (f : Row R → Row R) (n : ℕ) (rows : List (Row R))
      → KeepsKeys f
      → IsBelow n rows
      → IsBelow n (update_row t f rows)
  unfolding update_row
  update_row-IsBelow t f n [] keeps h = tt
  update_row-IsBelow t f n (r ∷ rs) keeps (lt, h) = elim (Bool-cases (r.transaction == t)) [
    | inl e ↦ rw e (rw (keeps r).1 (lt, update_row-IsBelow t f r.id rs keeps h))
    | inr e ↦ rw e (lt, update_row-IsBelow t f r.id rs keeps h)
  ]

  pub update_row-IsUnique :
      (t : String) (f : Row R → Row R) (rows : List (Row R))
      → KeepsKeys f
      → IsUnique rows
      → IsUnique (update_row t f rows)
  unfolding update_row
  update_row-IsUnique t f [] keeps h = tt
  update_row-IsUnique t f (r ∷ rs) keeps (new, h) = (
    ground (arith, find_row-update_row t r.transaction f rs keeps, (keeps r).0),
    update_row-IsUnique t f rs keeps h,
  )

  pub All-update_row {κ} :
      (P : Row R → Type κ) (t : String) (f : Row R → Row R) (rows : List (Row R))
      → ((r : Row R) → P r → P (f r))
      → All P rows
      → All P (update_row t f rows)
  unfolding update_row
  All-update_row P t f [] keeps h = tt
  All-update_row P t f (r ∷ rs) keeps (p, h) = elim (Bool-cases (r.transaction == t)) [
    | inl e ↦ rw e (keeps r p, All-update_row P t f rs keeps h)
    | inr e ↦ rw e (p, All-update_row P t f rs keeps h)
  ]
