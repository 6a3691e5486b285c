-- ===== src/Telemetry/Energy.antt =====
-- The energy of a session, from its meter values.
use mathlib.Core.Path.{ap₂}
use drive_power.Prelude.{
  ℤ, pos, List, [], ◌∷◌, none, some, true, false, ◌≡◌, refl, arith, All, ◌==◌, int_eq, lookup,
  select, if◌then◌else◌, ◌∙◌,
}
use drive_power.Prelude.Int.{is_int32}
use drive_power.Go.{driver, Error, ok, err, Platform, is_zero}
use drive_power.Telemetry.Model.{TelemetryData, Db, Env}
use drive_power.Telemetry.Repo.{
  insert_reading, readings, max_from, min_from, spread, get_total_energy, sum_energy_by_session,
}
use drive_power.Telemetry.Service.{MeterValueInput, new_reading, store_meter_value, total_energy}

module _ {R : Type 0} where
  -- A meter value of a connector that is an INTEGER is stored, with no fault, as the newest reading of
  -- its session: it stands first in the table, as it came, with the current time where it has none.
  -- The readings of the other sessions stay. With a fault the call returns it, and nothing changes;
  -- nor does anything change where the connector is no INTEGER, which is an error.
  pub store_meter_value_exact :
      (env : Env) (input : MeterValueInput R) (db : Db R) (session : ℤ)
      → (env.insert_fault ≡ none
          → is_int32 input.connector_id ≡ true
          → ((store_meter_value env input db).0 ≡ ok tt)
            × (readings session (store_meter_value env input db).1.rows ≡ (
                if input.session_id == session
                then input.meter_value ∷ readings session db.rows
                else readings session db.rows))
            × ((d : TelemetryData R) × ((store_meter_value env input db).1.rows ≡ d ∷ db.rows)
                × (d.id ≡ pos db.next_id)
                × (d.station_id ≡ input.station_id)
                × (d.connector_id ≡ input.connector_id)
                × (d.unit ≡ input.unit)
                × (d.recorded_at ≡ (if is_zero input.timestamp then env.now else input.timestamp))))
        × ((e : Error) → env.insert_fault ≡ some e → store_meter_value env input db ≡ (err e, db))
        × (env.insert_fault ≡ none
            → is_int32 input.connector_id ≡ false
            → store_meter_value env input db ≡ (err (driver 22003), db))
  unfolding store_meter_value insert_reading new_reading readings select
  store_meter_value_exact env input db session = (
    λ fine fits. (
      ground arith,
      ground arith,
      (
        record (new_reading env input) { id = pos db.next_id; created_at = env.db_now },
        ground arith,
        refl,
        refl,
        refl,
        refl,
        refl,
      ),
    ),
    λ e fault. ground arith,
    λ fine wide. ground arith,
  )

  unfoldable pub store_all : List (Env × MeterValueInput R) → Db R → Db R
  store_all [] db = db
  store_all ((env, input) ∷ rest) db = store_all rest (store_meter_value env input db).1

  view-store_all :
      (inputs : List (Env × MeterValueInput R)) (db : Db R) → (store_all inputs db).view ≡ db.view
  unfolding store_all store_meter_value insert_reading
  view-store_all [] db = refl
  view-store_all ((env, input) ∷ rest) db =
      view-store_all rest (store_meter_value env input db).1 ∙ ground arith

module _ {R : Type 0} ⦃p : Platform R⦄ where
  -- `newest` is above all of `older`, and these rise towards their first.
  abbrev pub IsRising : R → List R → Type 0
  IsRising newest [] = Unit
  IsRising newest (x ∷ xs) =
      (p.lt x newest ≡ true) × All (λ y. p.lt newest y ≡ false) (x ∷ xs) × IsRising x xs

  abbrev pub oldest : R → List R → R
  oldest x [] = x
  oldest x (y ∷ ys) = oldest y ys

  max_from-rising : (x : R) (xs : List R) → All (λ y. p.lt x y ≡ false) xs → max_from x xs ≡ x
  unfolding max_from
  max_from-rising x [] h = refl
  max_from-rising x (y ∷ ys) (below, h) = rw below (max_from-rising x ys h)

  min_from-rising : (x : R) (xs : List R) → IsRising x xs → min_from x xs ≡ oldest x xs
  unfolding min_from
  min_from-rising x [] h = refl
  min_from-rising x (y ∷ ys) (lower, all_below, h) = rw lower (min_from-rising y ys h)

  spread-rising : (x : R) (xs : List R) → IsRising x xs → spread (x ∷ xs) ≡ p.sub x (oldest x xs)
  unfolding spread
  spread-rising x [] h = ap₂ p.sub (max_from-rising x [] tt) (min_from-rising x [] tt)
  spread-rising x (y ∷ ys) h =
      ap₂ p.sub (max_from-rising x (y ∷ ys) h.1) (min_from-rising x (y ∷ ys) h)

  -- The energy of a session whose meter rises: where the view has no row for it and the table can
  -- be read, the newest reading less the oldest, or 0 where that is below 0. (A view that cannot be
  -- read is as good as one without the row.)
  pub total_energy-rising :
      (env : Env) (session : ℤ) (db : Db R) (newest : R) (older : List R)
      → lookup session db.view ≡ none
      → env.read_fault ≡ none
      → readings session db.rows ≡ newest ∷ older
      → IsRising newest older
      → total_energy env session db
        ≡ ok (
            if p.lt (p.sub newest (oldest newest older)) (p.of_int (pos 0))
            then p.of_int (pos 0)
            else p.sub newest (oldest newest older))
  unfolding total_energy get_total_energy sum_energy_by_session
  total_energy-rising env session db newest older absent fine q rising =
      ground (arith, spread-rising newest older rising)

  -- A session without readings, and without a row in the view, has energy 0.
  pub total_energy-empty :
      (env : Env) (session : ℤ) (db : Db R)
      → lookup session db.view ≡ none
      → env.read_fault ≡ none
      → readings session db.rows ≡ []
      → total_energy env session db ≡ ok (p.of_int (pos 0))
  unfolding total_energy get_total_energy sum_energy_by_session spread
  total_energy-empty env session db absent fine q = ground arith

  -- Nothing refreshes the materialized view: for a session with a row in it, whatever meter values
  -- are stored after that, the total energy stays what the view says, as long as it can be read.
  pub total_energy-stale :
      (env : Env) (session : ℤ) (db : Db R) (total : R) (inputs : List (Env × MeterValueInput R))
      → lookup session db.view ≡ some total
      → env.view_fault ≡ none
      → total_energy env session (store_all inputs db) ≡ ok total
  unfolding total_energy get_total_energy
  total_energy-stale env session db total inputs there fine =
      ground (arith, view-store_all inputs db)
