-- ===== src/Billing/Repo.antt =====
-- backend/services/billing-service/internal/repository
use drive_power.Prelude.{
  ℕ, ◌+◌, ℤ, pos, negsuc, List, [], ◌∷◌, none, some, Bool, ◌==◌, int_eq, ltb, if◌then◌else◌,
}
use drive_power.Sql.{query_desc}
use drive_power.Go.{Result, ok, err, no_rows}
use drive_power.Billing.Model.{Tariff, Transaction, Db, Env}

-- `if limit <= 0 { limit = 50 }`
abbrev pub row_limit : ℤ → ℕ
row_limit (pos n) = if ltb 0 n then n else 50
row_limit (negsuc n) = 50

module _ {R : Type 0} where
  abbrev pub first_row : List (Tariff R) → Result (Tariff R)
  first_row [] = err no_rows
  first_row (t ∷ rest) = ok t

  -- TariffRepository.GetActive
  unfoldable pub get_active : Env → Db R → Result (Tariff R)
  get_active env db = elim env.tariff_fault [
    | some e ↦ err e
    | none ↦ first_row (query_desc (λ t. t.updated_at) (λ t. t.is_active) 1 db.tariffs)
  ]

  -- TransactionRepository.Create, which writes the id and the time back into its argument.
  unfoldable pub create : Env → Transaction R → Db R → Result (Transaction R) × Db R
  create env tx db = elim env.insert_fault [
    | some e ↦ (err e, db)
    | none ↦
        let stored = record tx { id = pos db.next_id; created_at = env.db_now } in
        (ok stored, record db { transactions = stored ∷ db.transactions; next_id = db.next_id + 1 })
  ]

  abbrev pub belongs_to : ℤ → Transaction R → Bool
  belongs_to user tx = tx.user_id == user

  unfoldable pub list_by_user : Env → ℤ → ℤ → Db R → Result (List (Transaction R))
  list_by_user env user limit db = elim env.list_fault [
    | some e ↦ err e
    | none ↦
        ok (query_desc (λ tx. tx.created_at) (belongs_to user) (row_limit limit) db.transactions)
  ]
