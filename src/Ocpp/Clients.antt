-- ===== src/Ocpp/Clients.antt =====
-- backend/services/ocpp-server/internal/clients: the calls of the other services. Their log lines are
-- not modelled. The float64s that they send are finite, so that json.Marshal does not fail.
use Prim.Native.String.{◌++◌}
use drive_power.Prelude.{ℤ, pos, String, [], ◌∷◌, some, ◌==◌, string_eq, leb, if◌then◌else◌}
use drive_power.Go.{
  Result, ok, err, message, Platform, Time, Json, int, float, str, time, obj, end, field, get, null,
  Request, Response, format_nat,
}
use drive_power.Ocpp.Model.{Deps}

pub record StartSessionRequest : Type 0 where
  pub station_id : String
  pub connector_id : ℤ
  pub transaction_id : String
  pub meter_start : ℤ

pub record StopSessionRequest (R : Type 0) : Type 0 where
  pub transaction_id : String
  pub meter_stop : ℤ
  pub reason : String
  pub energy_kwh : R
  pub end_time : Time

pub record BillingStopRequest (R : Type 0) : Type 0 where
  pub session_id : ℤ
  pub user_id : ℤ
  pub energy_kwh : R

pub record MeterValueRequest (R : Type 0) : Type 0 where
  pub session_id : ℤ
  pub station_id : String
  pub connector_id : ℤ
  pub meter_value : R
  pub unit : String
  pub timestamp : Time

module _ {R : Type 0} ⦃p : Platform R⦄ where
  unfoldable pub start_body : StartSessionRequest → Json R
  start_body r = obj (
      field "station_id" (str r.station_id) (
        field "connector_id" (int r.connector_id) (
          field "transaction_id" (str r.transaction_id)
            (field "meter_start" (int r.meter_start) end))))

  unfoldable pub stop_body : StopSessionRequest R → Json R
  stop_body r = obj (
      field "transaction_id" (str r.transaction_id) (
        field "meter_stop" (int r.meter_stop) (
          field "reason" (str r.reason) (
            field "energy_kwh" (float r.energy_kwh)
              (field "end_time" (time (p.format_time r.end_time) r.end_time) end)))))

  unfoldable pub billing_body : BillingStopRequest R → Json R
  billing_body r = obj (
      field "session_id" (int r.session_id)
        (field "user_id" (int r.user_id) (field "energy_kwh" (float r.energy_kwh) end)))

  unfoldable pub meter_body : MeterValueRequest R → Json R
  meter_body r = obj (
      field "session_id" (int r.session_id) (
        field "station_id" (str r.station_id) (
          field "connector_id" (int r.connector_id) (
            field "meter_value" (float r.meter_value) (
              field "unit" (str r.unit)
                (field "timestamp" (time (p.format_time r.timestamp) r.timestamp) end))))))

  abbrev pub post_request : String → Json R → Request R
  post_request path body = record {
    method = "POST";
    path = path;
    header = ("Content-Type", "application/json") ∷ [];
    body = some body;
  }

  -- An answer is an error only where there is none.
  abbrev pub answered : Result (Response R) → Result (Unit {0})
  answered (err e) = err e
  answered (ok r) = ok tt

  -- `interface{}` holds a float64 for every JSON number.
  abbrev pub as_id : Json R → ℤ
  as_id (int z) = p.to_int (p.of_int z)
  as_id (float x) = p.to_int x
  as_id _ = pos 0

  abbrev pub id_of : Json R → Result ℤ
  id_of (obj fs) = ok (as_id (get "session_id" fs))
  id_of null = ok (pos 0)
  id_of _ = err (message "json: cannot unmarshal into a map")

  abbrev pub created : Result (Response R) → Result ℤ
  created (err e) = err e
  created (ok r) =
      if leb 300 r.status
      then err (message ("sessions start non-success status " ++ format_nat r.status))
      else id_of r.body

module _ {R W : Type 0} ⦃p : Platform R⦄ where
  unfoldable pub post : Deps R W → String → String → Json R → W → Result (Unit {0}) × W
  post deps base path body w =
      let (out, w') = deps.send base (post_request path body) w in (answered out, w')

  unfoldable pub post_start : Deps R W → String → String → Json R → W → Result ℤ × W
  post_start deps base path body w =
      let (out, w') = deps.send base (post_request path body) w in (created out, w')

  unfoldable pub create_from_ocpp : Deps R W → String → StartSessionRequest → W → Result ℤ × W
  create_from_ocpp deps base r w =
      if base == ""
      then (ok (pos 0), w)
      else post_start deps base "/internal/ocpp/session-start" (start_body r) w

  unfoldable pub complete_from_ocpp :
      Deps R W → String → StopSessionRequest R → W → Result (Unit {0}) × W
  complete_from_ocpp deps base r w =
      if base == ""
      then (ok tt, w)
      else post deps base "/internal/ocpp/session-stop" (stop_body r) w

  unfoldable pub notify_session_stop :
      Deps R W → String → BillingStopRequest R → W → Result (Unit {0}) × W
  notify_session_stop deps base r w =
      if base == ""
      then (ok tt, w)
      else post deps base "/internal/ocpp/session-stopped" (billing_body r) w

  unfoldable pub notify_meter_value :
      Deps R W → String → MeterValueRequest R → W → Result (Unit {0}) × W
  notify_meter_value deps base r w =
      if base == ""
      then (ok tt, w)
      else post deps base "/internal/ocpp/meter-values" (meter_body r) w
