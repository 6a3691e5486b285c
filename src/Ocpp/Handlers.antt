-- ===== src/Ocpp/Handlers.antt =====
-- backend/services/ocpp-server/internal/handlers. The several calls of time.Now of one handler give one
-- instant, `env.now`; log lines are not modelled.
use Prim.Native.String.{◌++◌}
use drive_power.Prelude.{
  ℕ, ◌-◌, ℤ, pos, String, Option, none, some, ◌==◌, string_eq, int_eq, ltb_ℤ, if◌then◌else◌, Assoc,
}
use drive_power.Prelude.Int.{sub64}
use drive_power.Go.{Result, ok, err, Platform, Json, Time, zero_time, format_nat}
use drive_power.Ocpp.Stations.{StationState, update_station, update_connector}
use drive_power.Ocpp.Transactions.{TransactionContext, set, get, remove}
use drive_power.Ocpp.Messages.{
  BootNotificationRequest, StatusNotificationRequest, StartTransactionRequest,
  StopTransactionRequest, MeterValuesRequest, decode_boot, decode_status, decode_start, decode_stop,
  decode_meter, boot_response, heartbeat_response, start_response, empty_response,
}
use drive_power.Ocpp.Model.{Station, Server, Env, Deps}
use drive_power.Ocpp.Repo.{upsert, update_status}
use drive_power.Ocpp.Clients.{
  create_from_ocpp, complete_from_ocpp, notify_session_stop, notify_meter_value,
}

-- HandlerFunc, with its context. A nil answer is `none`.
abbrev pub HandlerFunc : Type 0 → Type 0 → Type 0
HandlerFunc R W = Env → String → Json R → Server R W → Result (Option (Json R)) × Server R W

abbrev pub new_station : Env → String → BootNotificationRequest → Station
new_station env id req = record {
  id = id;
  vendor = req.charge_point_vendor;
  model = req.charge_point_model;
  firmware_version = req.firmware_version;
  last_heartbeat = env.now;
  status = "Available";
  created_at = zero_time;
  updated_at = zero_time;
}

-- The states of a station after a status for it and for a connector of it.
abbrev pub notified : String → ℤ → String → StationState → StationState
notified id connector status states =
    let states' = update_station id status states in
    if ltb_ℤ (pos 0) connector then update_connector id connector status states' else states'

abbrev pub or_available : String → String
or_available status = if status == "" then "Available" else status

-- time.Now().UnixNano(), for an instant from 1970 to 2262: 1970 starts 719528 days after the year 0.
abbrev pub unix_nano : Time → ℕ
unix_nano t = t - 62167219200000000000

-- The id of a transaction that the station did not name.
unfoldable pub transaction_of : Env → String → StartTransactionRequest → String
transaction_of env id req =
    if req.transaction_id == ""
    then (id ++ "-") ++ format_nat (unix_nano env.now)
    else req.transaction_id

abbrev pub or_zero : {W : Type 0} → Result ℤ × W → ℤ × W
or_zero (ok z, w) = (z, w)
or_zero (err e, w) = (pos 0, w)

abbrev pub charging : String → ℤ → StationState → StationState
charging id connector states =
    if ltb_ℤ (pos 0) connector then update_connector id connector "Charging" states else states

abbrev pub stop_session_id : Option TransactionContext → ℤ
stop_session_id none = pos 0
stop_session_id (some ctx) = ctx.session_id

module _ {R : Type 0} ⦃p : Platform R⦄ where
  -- The variables energyKWh and sessionID of the handler. The counter is in Wh.
  unfoldable pub stop_energy : ℤ → Option TransactionContext → R
  stop_energy meter none = p.of_int (pos 0)
  stop_energy meter (some ctx) =
      if ltb_ℤ ctx.meter_start meter
      then p.div (p.of_int (sub64 meter ctx.meter_start)) (p.of_int (pos 1000))
      else p.of_int (pos 0)

module _ {R W : Type 0} ⦃p : Platform R⦄ where
  abbrev pub booted :
      Env
      → String
      → Server R W
      → Result (Unit {0}) × Assoc String Station
      → Result (Option (Json R)) × Server R W
  booted env id s (err e, rows) = (err e, record s { rows = rows })
  booted env id s (ok _, rows) = (
    ok (some (boot_response env.now)),
    record s { rows = rows; stations = update_station id "Available" s.stations },
  )

  unfoldable pub boot_notification : HandlerFunc R W
  boot_notification env id payload s = elim (decode_boot payload) [
    | err e ↦ (err e, s)
    | ok req ↦ booted env id s (upsert env (new_station env id req) s.rows)
  ]

  unfoldable pub heartbeat : HandlerFunc R W
  heartbeat env id payload s = (ok (some (heartbeat_response env.now)), s)

  unfoldable pub status_changed : Env → String → StatusNotificationRequest → Server R W → Server R W
  status_changed env id req s =
      let status = or_available req.connector_status in
      let (_, rows') = update_status env id status s.rows in
      record s { rows = rows'; stations = notified id req.connector_id status s.stations }

  unfoldable pub status_notification : HandlerFunc R W
  status_notification env id payload s = elim (decode_status payload) [
    | err e ↦ (err e, s)
    | ok req ↦ (ok (some empty_response), status_changed env id req s)
  ]

  unfoldable pub create_session : Deps R W → String → StartTransactionRequest → String → W → ℤ × W
  create_session deps id req transaction w = elim deps.sessions [
    | none ↦ (pos 0, w)
    | some base ↦ or_zero (
        create_from_ocpp deps base
          (record {
            station_id = id;
            connector_id = req.connector_id;
            transaction_id = transaction;
            meter_start = req.meter_start;
          })
          w)
  ]

  unfoldable pub started :
      Deps R W → Env → String → StartTransactionRequest → Server R W → Server R W
  started deps env id req s =
      let transaction = transaction_of env id req in
      let (session, w) = create_session deps id req transaction s.world in
      record s {
        world = w;
        stations = charging id req.connector_id s.stations;
        transactions =
            set transaction (record { session_id = session; meter_start = req.meter_start })
              s.transactions;
      }

  unfoldable pub start_transaction : Deps R W → HandlerFunc R W
  start_transaction deps env id payload s = elim (decode_start payload) [
    | err e ↦ (err e, s)
    | ok req ↦ (ok (some (start_response (transaction_of env id req))), started deps env id req s)
  ]

  unfoldable pub complete_session : Deps R W → Env → StopTransactionRequest → R → W → W
  complete_session deps env req energy w = elim deps.sessions [
    | none ↦ w
    | some base ↦
        (complete_from_ocpp deps base
          (record {
            transaction_id = req.transaction_id;
            meter_stop = req.meter_stop;
            reason = req.reason;
            energy_kwh = energy;
            end_time = env.now;
          })
          w).1
  ]

  unfoldable pub bill_session : Deps R W → ℤ → R → W → W
  bill_session deps session energy w = elim deps.billing [
    | none ↦ w
    | some base ↦
        let w' =
          (notify_session_stop deps base
            (record { session_id = session; user_id = pos 0; energy_kwh = energy }) w).1 in
        if ltb_ℤ (pos 0) session then w' else w
  ]

  unfoldable pub stopped :
      Deps R W → Env → String → StopTransactionRequest → Server R W → Server R W
  stopped deps env id req s =
      let ctx = get req.transaction_id s.transactions in
      let energy = stop_energy req.meter_stop ctx in
      record s {
        world =
            bill_session deps (stop_session_id ctx) energy
              (complete_session deps env req energy s.world);
        stations = update_station id "Available" s.stations;
        transactions = remove req.transaction_id s.transactions;
      }

  unfoldable pub stop_transaction : Deps R W → HandlerFunc R W
  stop_transaction deps env id payload s = elim (decode_stop payload) [
    | err e ↦ (err e, s)
    | ok req ↦ (ok (some empty_response), stopped deps env id req s)
  ]

  unfoldable pub forward_meter : Deps R W → ℤ → MeterValuesRequest R → W → W
  forward_meter deps session req w = elim deps.telemetry [
    | none ↦ w
    | some base ↦
        (notify_meter_value deps base
          (record {
            session_id = session;
            station_id = req.station_id;
            connector_id = req.connector_id;
            meter_value = req.meter_value;
            unit = "kWh";
            timestamp = req.timestamp;
          })
          w).1
  ]

  unfoldable pub metered : Deps R W → MeterValuesRequest R → Server R W → Server R W
  metered deps req s = elim (get req.transaction_id s.transactions) [
    | none ↦ s
    | some ctx ↦
        let s' = record s { world = forward_meter deps ctx.session_id req s.world } in
        if ctx.session_id == pos 0 then s else s'
  ]

  unfoldable pub meter_values : Deps R W → HandlerFunc R W
  meter_values deps env id payload s = elim (decode_meter payload) [
    | err e ↦ (err e, s)
    | ok req ↦ (ok none, metered deps req s)
  ]
