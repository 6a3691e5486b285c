-- ===== src/Ocpp/Wire.antt =====
-- What the other services read in the requests of the OCPP server: its clients against the handlers of
-- the sessions, billing and telemetry services.
use drive_power.Prelude.{pos, true, ◌≡◌, refl, string_eq}
use drive_power.Prelude.Int.{is_int64}
use drive_power.Go.{ok, Platform, zero_time, get, fields_of, as_int64, as_string, as_time, as_float}
use drive_power.Ocpp.Clients.{
  StartSessionRequest, StopSessionRequest, BillingStopRequest, MeterValueRequest, start_body,
  stop_body, billing_body, meter_body,
}
use drive_power.Sessions.Handlers.{decode_start, decode_stop}
use drive_power.Billing.Handlers.{decode_stopped}
use drive_power.Telemetry.Handlers.{decode_meter}

-- The sessions service reads in a start, whose connector is an int64, the same station, connector and
-- transaction, user 0 and no start time.
pub start_understood :
    (R : Type 0) ⦃p : Platform R⦄ (r : StartSessionRequest)
    → is_int64 r.connector_id ≡ true
    → decode_start (start_body {R = R} r)
      ≡ ok (record {
        user_id = pos 0;
        station_id = r.station_id;
        connector_id = r.connector_id;
        transaction_id = r.transaction_id;
        start_time = zero_time;
      })
unfolding decode_start start_body fields_of get as_int64 as_string as_time
start_understood R r fits = rw fits refl

module _ {R : Type 0} ⦃p : Platform R⦄ where
  -- The sessions service reads in a stop the same transaction, time and energy.
  pub stop_understood :
      (r : StopSessionRequest R)
      → decode_stop (stop_body r)
        ≡ ok (record {
          transaction_id = r.transaction_id;
          end_time = r.end_time;
          energy_kwh = r.energy_kwh;
        })
  unfolding decode_stop stop_body fields_of get as_string as_time as_float
  stop_understood r = refl

  -- The billing service reads in a stop, whose ids are int64s, the same session, user and energy.
  pub billing_understood :
      (r : BillingStopRequest R)
      → is_int64 r.session_id ≡ true
      → is_int64 r.user_id ≡ true
      → decode_stopped (billing_body r)
        ≡ ok (record { session_id = r.session_id; user_id = r.user_id; energy_kwh = r.energy_kwh })
  unfolding decode_stopped billing_body fields_of get as_int64 as_float
  billing_understood r session user = rw (session, user) refl

  -- The telemetry service reads in a meter value, whose session and connector are int64s, what was sent.
  pub meter_understood :
      (r : MeterValueRequest R)
      → is_int64 r.session_id ≡ true
      → is_int64 r.connector_id ≡ true
      → decode_meter (meter_body r)
        ≡ ok (record {
          session_id = r.session_id;
          station_id = r.station_id;
          connector_id = r.connector_id;
          meter_value = r.meter_value;
          unit = r.unit;
          timestamp = r.timestamp;
        })
  unfolding decode_meter meter_body fields_of get as_int64 as_string as_time as_float
  meter_understood r session connector = rw (session, connector) refl
