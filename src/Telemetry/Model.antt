-- ===== src/Telemetry/Model.antt =====
-- backend/services/telemetry-service/internal/models, and what migrations/*.sql declares.
use drive_power.Prelude.{ℕ, ℤ, String, List, Option, Assoc}
use drive_power.Go.{Error, Time}

-- models.TelemetryData
pub record TelemetryData (R : Type 0) : Type 0 where
  pub id : ℤ
  pub session_id : ℤ
  pub station_id : String
  pub connector_id : ℤ
  pub meter_value : R
  pub unit : String
  pub recorded_at : Time
  pub created_at : Time

-- The table `telemetry_data`, the newest row first, with the next BIGSERIAL; and the rows that the
-- materialized view `session_energy_view` had when it was made or last refreshed.
pub record Db (R : Type 0) : Type 0 where
  pub rows : List (TelemetryData R)
  pub next_id : ℕ
  pub view : Assoc ℤ R

-- `time.Now`, NOW() of Postgres, and the errors that it reports for an insert, a read of the view
-- and a read of the table.
pub record Env : Type 0 where
  pub now : Time
  pub db_now : Time
  pub insert_fault : Option Error
  pub view_fault : Option Error
  pub read_fault : Option Error
