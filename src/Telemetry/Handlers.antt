-- ===== src/Telemetry/Handlers.antt =====
-- backend/services/telemetry-service/internal/http: the handler and the router.
use drive_power.Prelude.{ℕ, pos, String, [], ◌∷◌, Assoc, ◌==◌, string_eq, int_eq, if◌then◌else◌}
use drive_power.Go.{
  Result, ok, err, ◌>>=◌, Platform, Json, str, obj, end, field, get, fields_of, as_int64, as_float,
  as_string, as_time, Response, Handler, method, mux, decode_body,
}
use drive_power.Telemetry.Model.{Db, Env}
use drive_power.Telemetry.Service.{MeterValueInput, store_meter_value}

module _ {R : Type 0} ⦃p : Platform R⦄ where
  -- The tags of service.MeterValueInput.
  unfoldable pub decode_meter : Json R → Result (MeterValueInput R)
  decode_meter j = do
    fs ← fields_of j
    session ← as_int64 (get "session_id" fs)
    station ← as_string (get "station_id" fs)
    connector ← as_int64 (get "connector_id" fs)
    value ← as_float (get "meter_value" fs)
    unit ← as_string (get "unit" fs)
    stamp ← as_time (get "timestamp" fs)
    ok (record {
      session_id = session;
      station_id = station;
      connector_id = connector;
      meter_value = value;
      unit = unit;
      timestamp = stamp;
    })

  -- http.Error
  unfoldable pub text_error : ℕ → String → Response R
  text_error code text = record {
    status = code;
    header = ("Content-Type", "text/plain; charset=utf-8") ∷ [];
    body = str text;
  }

  unfoldable pub status_ok : ℕ → Response R
  status_ok code = record { status = code; header = []; body = obj (field "status" (str "ok") end) }

  unfoldable pub stored_reply : Result (Unit {0}) → Response R
  stored_reply (ok _) = status_ok 202
  stored_reply (err e) = text_error 500 "failed to store meter value"

  unfoldable pub meter_values : Env → Handler R (Db R)
  meter_values env req db = elim (decode_body decode_meter req.body) [
    | err e ↦ (text_error 400 "invalid json", db)
    | ok input ↦
        if input.session_id == pos 0
        then (text_error 400 "session_id is required", db)
        else (let (stored, db') = store_meter_value env input db in (stored_reply stored, db'))
  ]

  unfoldable pub health : Handler R (Db R)
  health req db =
      (record (status_ok 200) { header = ("Content-Type", "application/json") ∷ [] }, db)

  unfoldable pub routes : Env → Assoc String (Handler R (Db R))
  routes env =
      ("/internal/ocpp/meter-values", method "POST" (meter_values env))
      ∷ ("/health", method "GET" health)
      ∷ []

  unfoldable pub router : Env → Handler R (Db R)
  router env = mux (routes env)
