-- ===== src/Telemetry/Tests.antt =====
-- Runs of the telemetry service on a small database.
use drive_power.Prelude.{
  true, false, ℤ, pos, [], ◌∷◌, none, some, ◌≡◌, ◌≢◌, refl, string_eq, int_eq, lookup, select,
  if◌then◌else◌, ◌==◌,
}
use drive_power.Prelude.Int.{is_int32, ◌-ℤ◌}
use drive_power.Go.{driver, Error, Result, ok, err, int, obj, end, field, Request, decode_body}
use drive_power.Go.Sample.{sample_platform}
use drive_power.Telemetry.Model.{TelemetryData, Db, Env}
use drive_power.Telemetry.Repo.{readings}
use drive_power.Telemetry.Service.{MeterValueInput, store_meter_value, total_energy}
use drive_power.Telemetry.Handlers.{decode_meter, router}
use drive_power.Telemetry.Energy.{
  store_meter_value_exact, total_energy-rising, total_energy-stale, store_all,
}
use drive_power.Telemetry.Replies.{MeterReply, meter_values_endpoint}

abbrev fine : Env
fine = record { now = 100; db_now = 101; insert_fault = none; view_fault = none; read_fault = none }

abbrev reading : ℤ → ℤ → TelemetryData ℤ
reading id value = record {
  id = id;
  session_id = pos 3;
  station_id = "S1";
  connector_id = pos 1;
  meter_value = value;
  unit = "kWh";
  recorded_at = 50;
  created_at = 50;
}

abbrev metered : Db ℤ
metered = record {
  rows = reading (pos 2) (pos 9) ∷ reading (pos 1) (pos 4) ∷ [];
  next_id = 3;
  view = [];
}

abbrev viewed : Db ℤ
viewed = record metered { view = (pos 3, pos 5) ∷ [] }

abbrev value : MeterValueInput ℤ
value = record {
  session_id = pos 3;
  station_id = "S1";
  connector_id = pos 1;
  meter_value = pos 12;
  unit = "kWh";
  timestamp = 60;
}

abbrev IsStored : Result (Unit {0}) × Db ℤ → Type 0
IsStored out =
    (fine.insert_fault ≡ none
      → is_int32 (pos 1) ≡ true
      → (out.0 ≡ ok tt)
        × (readings (pos 3) out.1.rows ≡ (
            if pos 3 == pos 3
            then pos 12 ∷ readings (pos 3) metered.rows
            else readings (pos 3) metered.rows))
        × ((d : TelemetryData ℤ) × (out.1.rows ≡ d ∷ metered.rows)
            × (d.id ≡ pos 3)
            × (d.station_id ≡ "S1")
            × (d.connector_id ≡ pos 1)
            × (d.unit ≡ "kWh")
            × (d.recorded_at ≡ 60)))
    × ((e : Error) → fine.insert_fault ≡ some e → out ≡ (err e, metered))
    × (fine.insert_fault ≡ none → is_int32 (pos 1) ≡ false → out ≡ (err (driver 22003), metered))

store_meter_value_exact_example : IsStored (store_meter_value fine value metered)
store_meter_value_exact_example = store_meter_value_exact fine value metered (pos 3)

no_view : lookup (pos 3) metered.view ≡ none
unfolding lookup
no_view = refl

read_back : readings (pos 3) metered.rows ≡ pos 9 ∷ pos 4 ∷ []
unfolding readings select
read_back = refl

in_view : lookup (pos 3) viewed.view ≡ some (pos 5)
unfolding lookup
in_view = refl

total_energy-rising_example : total_energy fine (pos 3) metered ≡ ok (pos 5)
unfolding ◌-ℤ◌
total_energy-rising_example =
    total_energy-rising fine (pos 3) metered (pos 9) (pos 4 ∷ []) no_view refl read_back
      (refl, (refl, tt), tt)

total_energy-stale_example :
    total_energy fine (pos 3) (store_all ((fine, value) ∷ []) viewed) ≡ ok (pos 5)
total_energy-stale_example =
    total_energy-stale fine (pos 3) viewed (pos 5) ((fine, value) ∷ []) in_view refl

abbrev sent : Request ℤ
sent = record {
  method = "POST";
  path = "/internal/ocpp/meter-values";
  header = [];
  body = some (obj (field "session_id" (int (pos 3)) (field "meter_value" (int (pos 12)) end)));
}

meter_values_endpoint_run :
    (sent.method ≡ "POST"
      → MeterReply fine metered (decode_body decode_meter sent.body) (router fine sent metered))
    × (sent.method ≢ "POST"
        → ((router fine sent metered).0.status ≡ 405) × ((router fine sent metered).1 ≡ metered))
meter_values_endpoint_run = meter_values_endpoint fine sent metered refl
