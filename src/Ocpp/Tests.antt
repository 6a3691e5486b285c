-- ===== src/Ocpp/Tests.antt =====
-- Runs of the OCPP server, with a network that keeps the requests sent and always gives session 7.
use drive_power.Prelude.{
  ℤ, pos, String, List, [], ◌∷◌, none, some, ◌≡◌, ◌≢◌, refl, string_eq, int_eq, nat_eq, ==_differ,
}
use drive_power.Go.{ok, int, obj, end, field, Request}
use drive_power.Go.Sample.{sample_platform}
use drive_power.Ocpp.Messages.{StartTransactionRequest, StopTransactionRequest, MeterValuesRequest}
use drive_power.Ocpp.Model.{Server, Env, Deps}
use drive_power.Ocpp.Handlers.{
  transaction_of, create_session, started, complete_session, stopped, metered,
}
use drive_power.Ocpp.Bills.{energy_between, stopped_again, meter_values_forwarded, meter_request}

abbrev pub Sent : Type 0
Sent = List (String × Request ℤ)

abbrev pub network : Deps ℤ Sent
network = record {
  send = λ base req w. (
    ok (record { status = 202; header = []; body = obj (field "session_id" (int (pos 7)) end) }),
    (base, req) ∷ w,
  );
  sessions = some "http://sessions";
  billing = some "http://billing";
  telemetry = some "http://telemetry";
}

abbrev pub now : Env
now = record {
  now = 63000000000000000000;
  station_fault = none;
  log_fault = none;
  encode_fault = none;
}

abbrev pub idle : Server ℤ Sent
idle = record { stations = []; transactions = []; rows = []; log = []; world = [] }

abbrev pub starting : StartTransactionRequest
starting = record {
  connector_id = pos 1;
  id_tag = "card";
  meter_start = pos 1000;
  reservation_id = pos 0;
  timestamp = 5;
  station_id = "S1";
  transaction_id = "T1";
}

abbrev stopping : StopTransactionRequest
stopping = record {
  transaction_id = "T1";
  id_tag = "card";
  meter_stop = pos 8000;
  timestamp = 9;
  reason = "Local";
  station_id = "S1";
  meter_start = pos 0;
}

abbrev reading : MeterValuesRequest ℤ
reading = record {
  station_id = "S1";
  connector_id = pos 1;
  transaction_id = "T1";
  meter_value = pos 3;
  timestamp = 7;
}

named : "T1" ≡ transaction_of now "S1" starting
unfolding transaction_of
named = refl

abbrev session : ℤ
session = (create_session network "S1" starting (transaction_of now "S1" starting) idle.world).0

abbrev pub charging : Server ℤ Sent
charging = started network now "S1" starting idle

abbrev heard : Sent
heard =
    complete_session network now stopping (energy_between network (pos 1000) (pos 8000))
      charging.world

stopped_again_example :
    (stopped network now "S1" stopping (stopped network now "S1" stopping charging)).world
    ≡ complete_session network now stopping
        (pos 0)
        (stopped network now "S1" stopping charging).world
stopped_again_example = stopped_again network now now "S1" "S1" stopping stopping charging refl

meter_values_forwarded_example :
    (session ≢ pos 0
      → metered network reading charging ≡ record charging {
        world = ("http://telemetry", meter_request network session reading) ∷ charging.world;
      })
    × (session ≡ pos 0 → metered network reading charging ≡ charging)
meter_values_forwarded_example =
    meter_values_forwarded network now "S1" starting reading idle "http://telemetry" named refl
      (==_differ "http://telemetry" "" refl)
