-- ===== src/Telemetry/Repo.antt =====
-- backend/services/telemetry-service/internal/repository
use drive_power.Prelude.{
  ◌+◌, ℤ, pos, List, [], ◌∷◌, map, Option, none, some, Bool, ◌==◌, int_eq, lookup, select,
  if◌then◌else◌,
}
use drive_power.Prelude.Int.{is_int32}
use drive_power.Sql.{query_desc}
use drive_power.Go.{Result, ok, err, no_rows, driver, Time, Platform}
use drive_power.Telemetry.Model.{TelemetryData, Db, Env}

module _ {R : Type 0} where
  abbrev pub of_session : ℤ → TelemetryData R → Bool
  of_session session d = d.session_id == session

  -- TelemetryRepository.Insert
  unfoldable pub insert_reading : Env → TelemetryData R → Db R → Result (TelemetryData R) × Db R
  insert_reading env d db = elim env.insert_fault [
    | some e ↦ (err e, db)
    | none ↦
        let stored = record d { id = pos db.next_id; created_at = env.db_now } in
        if is_int32 d.connector_id
        then (ok stored, record db { rows = stored ∷ db.rows; next_id = db.next_id + 1 })
        else (err (driver 22003), db)
  ]

  abbrev pub first_value : List (TelemetryData R) → Result (R × Time)
  first_value [] = err no_rows
  first_value (d ∷ rest) = ok (d.meter_value, d.recorded_at)

  unfoldable pub last_meter_value : Env → ℤ → Db R → Result (R × Time)
  last_meter_value env session db = elim env.read_fault [
    | some e ↦ err e
    | none ↦ first_value (query_desc (λ d. d.recorded_at) (of_session session) 1 db.rows)
  ]

  abbrev pub or_no_rows : Option R → Result R
  or_no_rows none = err no_rows
  or_no_rows (some x) = ok x

  -- SessionEnergyView.GetTotalEnergy
  unfoldable pub get_total_energy : Env → ℤ → Db R → Result R
  get_total_energy env session db = elim env.view_fault [
    | some e ↦ err e
    | none ↦ or_no_rows (lookup session db.view)
  ]

  -- The meter values of a session, the newest first.
  unfoldable pub readings : ℤ → List (TelemetryData R) → List R
  readings session rows = map (λ d. d.meter_value) (select (of_session session) rows)

module _ {R : Type 0} ⦃p : Platform R⦄ where
  -- MAX and MIN, from the first value.
  unfoldable pub max_from : R → List R → R
  max_from m [] = m
  max_from m (x ∷ xs) = max_from (if p.lt m x then x else m) xs

  unfoldable pub min_from : R → List R → R
  min_from m [] = m
  min_from m (x ∷ xs) = min_from (if p.lt x m then x else m) xs

  -- COALESCE(MAX(meter_value) - MIN(meter_value), 0)
  unfoldable pub spread : List R → R
  spread [] = p.of_int (pos 0)
  spread (x ∷ xs) = p.sub (max_from x xs) (min_from x xs)

  abbrev pub not_negative : R → R
  not_negative total = if p.lt total (p.of_int (pos 0)) then p.of_int (pos 0) else total

  unfoldable pub sum_energy_by_session : Env → ℤ → Db R → Result R
  sum_energy_by_session env session db = elim env.read_fault [
    | some e ↦ err e
    | none ↦ ok (not_negative (spread (readings session db.rows)))
  ]
