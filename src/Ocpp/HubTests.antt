-- ===== src/Ocpp/HubTests.antt =====
-- Runs of the state of the stations and of the hub of connections.
use drive_power.Prelude.{
  ℤ, pos, String, true, [], ◌∷◌, none, some, ◌≡◌, refl, arith, string_eq, int_eq, nat_eq, lookup,
  IsKeyed, ==_differ,
}
use drive_power.Go.{message, err}
use drive_power.Go.Sample.{sample_platform}
use drive_power.Ocpp.Stations.{
  StationState, update_station, update_connector, snapshot, status_of_station, status_of_connector,
}
use drive_power.Ocpp.Messages.{
  StatusNotificationRequest, StartTransactionRequest, StopTransactionRequest,
}
use drive_power.Ocpp.Model.{Server, Env, Deps}
use drive_power.Ocpp.Handlers.{started, stopped, status_changed}
use drive_power.Ocpp.Connectors.{IsRecorded, status-IsRecorded, connector_stays_charging}
use drive_power.Ocpp.Snapshots.{IsState, snapshot-same, updates-IsState}
use drive_power.Ocpp.Connections.{
  Hub, start, then_, connect, handle_ws, cleanup, new_connection, empty_hub,
}
use drive_power.Ocpp.Buffers.{AllBounded, reachable-AllBounded, reconnected_is_forgotten}

abbrev offline : Deps ℤ (Unit {0})
offline = record {
  send = λ base req w. (err (message "connection refused"), w);
  sessions = some "http://sessions";
  billing = some "http://billing";
  telemetry = some "http://telemetry";
}

abbrev now : Env
now = record {
  now = 63000000000000000000;
  station_fault = none;
  log_fault = none;
  encode_fault = none;
}

abbrev stations : StationState
stations = ("S1", (record { status = "Available"; connectors = (pos 1, "Available") ∷ [] })) ∷ []

abbrev idle : Server ℤ (Unit {0})
idle = record { stations = stations; transactions = []; rows = []; log = []; world = tt }

abbrev faulted : StatusNotificationRequest
faulted = record {
  connector_id = pos 1;
  connector_status = "Faulted";
  error_code = "GroundFailure";
  info = "";
  timestamp = 5;
  vendor_id = "";
  station_id = "S1";
}

status-IsRecorded_example :
    IsRecorded "S1" (pos 1) "Faulted" stations (status_changed now "S1" faulted idle).stations
status-IsRecorded_example = status-IsRecorded now "S1" faulted idle

abbrev starting : StartTransactionRequest
starting = record {
  connector_id = pos 1;
  id_tag = "card";
  meter_start = pos 1000;
  reservation_id = pos 0;
  timestamp = 5;
  station_id = "S1";
  transaction_id = "T1";
}

abbrev stopping : StopTransactionRequest
stopping = record {
  transaction_id = "T1";
  id_tag = "card";
  meter_stop = pos 8000;
  timestamp = 9;
  reason = "Local";
  station_id = "S1";
  meter_start = pos 0;
}

abbrev after : StationState
after = (stopped offline now "S1" stopping (started offline now "S1" starting idle)).stations

connector_stays_charging_example :
    (status_of_station "S1" after ≡ some "Available")
    × (status_of_connector "S1" (pos 1) after ≡ some "Charging")
connector_stays_charging_example =
    connector_stays_charging offline now now "S1" starting stopping idle refl

none-IsState : IsState []
unfolding IsState IsKeyed lookup
none-IsState = (tt, λ id st q. ground (arith, q))

abbrev one : StationState
one = update_station "S1" "Available" []

abbrev two : StationState
two = update_connector "S1" (pos 1) "Available" one

two-IsState : IsState two
two-IsState =
    (updates-IsState "S1" "Available" (pos 1) one
      (updates-IsState "S1" "Available" (pos 1) [] none-IsState).0).1

snapshot-same_run :
    (status_of_station "S1" (snapshot two) ≡ status_of_station "S1" two)
    × ((c : ℤ) → status_of_connector "S1" c (snapshot two) ≡ status_of_connector "S1" c two)
snapshot-same_run = snapshot-same two two-IsState "S1"

updates-IsState_run :
    IsState (update_station "S2" "Available" two)
    × IsState (update_connector "S2" (pos 1) "Available" two)
updates-IsState_run = updates-IsState "S2" "Available" (pos 1) two two-IsState

abbrev hub : Hub ℤ
hub = (handle_ws "S1" true empty_hub).1

reachable-AllBounded_run : AllBounded hub
reachable-AllBounded_run =
    reachable-AllBounded hub
      (then_ empty_hub empty_hub hub (start empty_hub) (connect "S1" true empty_hub))

reconnected_is_forgotten_example :
    (lookup "S1" (cleanup 0 (handle_ws "S1" true hub).1).connections ≡ none)
    × (lookup 1 (cleanup 0 (handle_ws "S1" true hub).1).open_connections
        ≡ some (new_connection "S1"))
unfolding empty_hub
reconnected_is_forgotten_example =
    reconnected_is_forgotten "S1" empty_hub (==_differ {A = String} "S1" "" refl)
