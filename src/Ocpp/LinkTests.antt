-- ===== src/Ocpp/LinkTests.antt =====
-- Runs of the clients of the OCPP server against the other services.
use drive_power.Prelude.{
  ℤ, pos, String, [], ◌∷◌, none, some, ◌≡◌, refl, arith, string_eq, ==_differ,
}
use drive_power.Go.{ok, zero_time}
use drive_power.Go.Sample.{sample_platform, sample_laws}
use drive_power.Sessions.Model.{Session, Row, Env}
use drive_power.Sessions.Repo.{start_session, has_station, upsert_row, find_row, inserted}
use drive_power.Sessions.Service.{Service, new_session, cache_started, start_session_from_ocpp}
use drive_power.Sessions.Handlers.{decode_start, decode_stop}
use drive_power.Sessions.Starts.{IsOpened}
use drive_power.Billing.Handlers.{decode_stopped}
use drive_power.Telemetry.Handlers.{decode_meter}
use drive_power.Ocpp.Messages.{StartTransactionRequest, StopTransactionRequest}
use drive_power.Ocpp.Model as model
use drive_power.Ocpp.Completed.{session_completed}
use drive_power.Ocpp.Clients.{
  StartSessionRequest, StopSessionRequest, BillingStopRequest, MeterValueRequest, start_body,
  stop_body, billing_body, meter_body,
}
use drive_power.Ocpp.Handlers.{create_session, complete_session}
use drive_power.Ocpp.Linked.{linked, input_of, session_linked}
use drive_power.Ocpp.Wire.{start_understood, stop_understood, billing_understood, meter_understood}

abbrev fine : Env
fine = record {
  now = 100;
  db_now = 101;
  db_fault = none;
  affected_fault = none;
  cache_fault = none;
}

abbrev sessions : Service ℤ
sessions = record {
  db = record {
    rows = [];
    next_id = 1;
    stations =
        (record { id = "S1"; name = ""; location = ""; created_at = 0; updated_at = 0 }) ∷ [];
  };
  store = none;
}

abbrev starting : StartTransactionRequest
starting = record {
  connector_id = pos 1;
  id_tag = "card";
  meter_start = pos 1000;
  reservation_id = pos 0;
  timestamp = 5;
  station_id = "S1";
  transaction_id = "T1";
}

abbrev session : Session ℤ
session = record {
  id = pos 1;
  user_id = pos 0;
  station_id = "S1";
  connector_id = pos 1;
  status = "active";
  start_time = 100;
  end_time = zero_time;
  energy_kwh = pos 0;
  transaction = "T1";
  created_at = 101;
  updated_at = 101;
}

abbrev after : Service ℤ
after = (start_session_from_ocpp fine (input_of "S1" starting "T1") sessions).1

started : start_session_from_ocpp fine (input_of "S1" starting "T1") sessions ≡ (ok session, after)
unfolding start_session_from_ocpp new_session cache_started start_session has_station upsert_row
    find_row inserted
started = refl

session_linked_example :
    (create_session (linked fine "http://sessions") "S1" starting "T1" sessions ≡ (pos 1, after))
    × ((opened : IsOpened fine (input_of "S1" starting "T1") sessions session after)
        × (opened.row.user_id ≡ pos 0))
session_linked_example =
    session_linked sample_laws fine "http://sessions" "S1" "T1" starting sessions after session 1
      (==_differ {A = String} "http://sessions" "" refl) (==_differ {A = String} "T1" "" refl) refl
      started refl (omega arith)

abbrev row : Row ℤ
row = record {
  id = 1;
  user_id = pos 0;
  station_id = "S1";
  connector_id = pos 1;
  status = "active";
  start_time = 50;
  end_time = none;
  energy_kwh = pos 0;
  transaction = "T1";
  created_at = 50;
  updated_at = 50;
}

abbrev running : Service ℤ
running = record sessions {
  db = record { rows = row ∷ []; next_id = 2; stations = sessions.db.stations };
}

abbrev stopping : StopTransactionRequest
stopping = record {
  transaction_id = "T1";
  id_tag = "card";
  meter_stop = pos 8000;
  timestamp = 9;
  reason = "Local";
  station_id = "S1";
  meter_start = pos 0;
}

abbrev later : model.Env
later = record { now = 90; station_fault = none; log_fault = none; encode_fault = none }

there : find_row "T1" running.db.rows ≡ some row
unfolding find_row
there = refl

session_completed_example :
    find_row "T1"
      (complete_session (linked fine "http://sessions") later stopping (pos 7) running).db.rows
    ≡ some (record row {
      status = "completed";
      end_time = some 90;
      energy_kwh = pos 7;
      updated_at = 101;
    })
session_completed_example =
    session_completed fine later "http://sessions" stopping (pos 7) running row
      (==_differ {A = String} "http://sessions" "" refl) (==_differ {A = String} "T1" "" refl) refl
      refl there

abbrev start_request : StartSessionRequest
start_request = record {
  station_id = "S1";
  connector_id = pos 1;
  transaction_id = "T1";
  meter_start = pos 1000;
}

start_understood_run :
    decode_start (start_body {R = ℤ} start_request)
    ≡ ok (record {
      user_id = pos 0;
      station_id = "S1";
      connector_id = pos 1;
      transaction_id = "T1";
      start_time = zero_time;
    })
start_understood_run = start_understood ℤ start_request refl

abbrev stop_request : StopSessionRequest ℤ
stop_request = record {
  transaction_id = "T1";
  meter_stop = pos 8000;
  reason = "Local";
  energy_kwh = pos 7;
  end_time = 90;
}

stop_understood_run :
    decode_stop (stop_body stop_request)
    ≡ ok (record { transaction_id = "T1"; end_time = 90; energy_kwh = pos 7 })
stop_understood_run = stop_understood stop_request

abbrev billing_request : BillingStopRequest ℤ
billing_request = record { session_id = pos 1; user_id = pos 0; energy_kwh = pos 7 }

billing_understood_run :
    decode_stopped (billing_body billing_request)
    ≡ ok (record { session_id = pos 1; user_id = pos 0; energy_kwh = pos 7 })
billing_understood_run = billing_understood billing_request refl refl

abbrev meter_request : MeterValueRequest ℤ
meter_request = record {
  session_id = pos 1;
  station_id = "S1";
  connector_id = pos 1;
  meter_value = pos 3;
  unit = "kWh";
  timestamp = 70;
}

meter_understood_run :
    decode_meter (meter_body meter_request)
    ≡ ok (record {
      session_id = pos 1;
      station_id = "S1";
      connector_id = pos 1;
      meter_value = pos 3;
      unit = "kWh";
      timestamp = 70;
    })
meter_understood_run = meter_understood meter_request refl refl
