-- ===== src/Telemetry/Service.antt =====
-- backend/services/telemetry-service/internal/service
use drive_power.Prelude.{ℤ, pos, String, if◌then◌else◌}
use drive_power.Go.{Result, ok, err, Platform, Time, zero_time, is_zero}
use drive_power.Telemetry.Model.{TelemetryData, Db, Env}
use drive_power.Telemetry.Repo.{insert_reading, get_total_energy, sum_energy_by_session}

pub record MeterValueInput (R : Type 0) : Type 0 where
  pub session_id : ℤ
  pub station_id : String
  pub connector_id : ℤ
  pub meter_value : R
  pub unit : String
  pub timestamp : Time

module _ {R : Type 0} where
  unfoldable pub new_reading : Env → MeterValueInput R → TelemetryData R
  new_reading env input = record {
    id = pos 0;
    session_id = input.session_id;
    station_id = input.station_id;
    connector_id = input.connector_id;
    meter_value = input.meter_value;
    unit = input.unit;
    recorded_at = if is_zero input.timestamp then env.now else input.timestamp;
    created_at = zero_time;
  }

  abbrev pub done : Result (TelemetryData R) → Result (Unit {0})
  done (ok d) = ok tt
  done (err e) = err e

  unfoldable pub store_meter_value : Env → MeterValueInput R → Db R → Result (Unit {0}) × Db R
  store_meter_value env input db =
      let (out, db') = insert_reading env (new_reading env input) db in (done out, db')

module _ {R : Type 0} ⦃p : Platform R⦄ where
  -- energy_calc.go
  unfoldable pub calculate_delta_energy : R → R → R
  calculate_delta_energy prev current =
      if p.lt current prev then p.of_int (pos 0) else p.sub current prev

  abbrev pub or_sum : Env → ℤ → Db R → Result R → Result R
  or_sum env session db (ok total) = ok total
  or_sum env session db (err e) = sum_energy_by_session env session db

  -- TotalEnergy; the view of the service is not nil (app.go).
  unfoldable pub total_energy : Env → ℤ → Db R → Result R
  total_energy env session db = or_sum env session db (get_total_energy env session db)
