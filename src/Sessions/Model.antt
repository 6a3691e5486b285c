-- ===== src/Sessions/Model.antt =====
-- backend/services/sessions-service/internal/models, and the tables of migrations/*.sql.
use drive_power.Prelude.{ℕ, ℤ, String, List, Option}
use drive_power.Go.{Error, Time}

-- models.Session
pub record Session (R : Type 0) : Type 0 where
  pub id : ℤ
  pub user_id : ℤ
  pub station_id : String
  pub connector_id : ℤ
  pub status : String
  pub start_time : Time
  pub end_time : Time
  pub energy_kwh : R
  pub transaction : String
  pub created_at : Time
  pub updated_at : Time

-- models.Station, a row of the table `stations`
pub record Station : Type 0 where
  pub id : String
  pub name : String
  pub location : String
  pub created_at : Time
  pub updated_at : Time

-- A row of `charging_sessions`; `end_time` is NULL until it is set. The id is a BIGSERIAL.
pub record Row (R : Type 0) : Type 0 where
  pub id : ℕ
  pub user_id : ℤ
  pub station_id : String
  pub connector_id : ℤ
  pub status : String
  pub start_time : Time
  pub end_time : Option Time
  pub energy_kwh : R
  pub transaction : String
  pub created_at : Time
  pub updated_at : Time

-- The database of the service: the newest row of `charging_sessions` comes first.
pub record Db (R : Type 0) : Type 0 where
  pub rows : List (Row R)
  pub next_id : ℕ
  pub stations : List Station

-- What one call meets: `time.Now`, NOW() of Postgres, and the errors that Postgres (for the
-- statement and for RowsAffected) and Redis report, if any.
pub record Env : Type 0 where
  pub now : Time
  pub db_now : Time
  pub db_fault : Option Error
  pub affected_fault : Option Error
  pub cache_fault : Option Error
