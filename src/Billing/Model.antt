-- ===== src/Billing/Model.antt =====
-- backend/services/billing-service/internal/models, and the tables of migrations/*.sql.
use drive_power.Prelude.{ℕ, ℤ, String, List, Option, Bool}
use drive_power.Go.{Error, Time}

-- models.Tariff
pub record Tariff (R : Type 0) : Type 0 where
  pub id : ℤ
  pub name : String
  pub price_per_kwh : R
  pub is_active : Bool
  pub created_at : Time
  pub updated_at : Time

-- models.Transaction
pub record Transaction (R : Type 0) : Type 0 where
  pub id : ℤ
  pub session_id : ℤ
  pub user_id : ℤ
  pub energy_kwh : R
  pub price_per_kwh : R
  pub amount : R
  pub status : String
  pub created_at : Time

-- The tables `tariffs` and `billing_transactions`, the newest row first, with the next BIGSERIAL.
pub record Db (R : Type 0) : Type 0 where
  pub tariffs : List (Tariff R)
  pub transactions : List (Transaction R)
  pub next_id : ℕ

-- NOW() of Postgres, and the errors that it reports for a read of a tariff, an insert and a listing.
pub record Env : Type 0 where
  pub db_now : Time
  pub tariff_fault : Option Error
  pub insert_fault : Option Error
  pub list_fault : Option Error
