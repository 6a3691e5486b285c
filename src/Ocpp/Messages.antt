-- ===== src/Ocpp/Messages.antt =====
-- backend/services/ocpp-server/internal/ocpp/protocol: the payloads, with the tags of their fields.
use drive_power.Prelude.{ℤ, pos, String}
use drive_power.Go.{
  Result, ok, ◌>>=◌, Platform, Time, Json, int, str, time, obj, end, field, get, fields_of,
  as_int64, as_float, as_string, as_time,
}

pub record BootNotificationRequest : Type 0 where
  pub charge_point_vendor : String
  pub charge_point_model : String
  pub charge_point_serial : String
  pub charge_box_serial : String
  pub firmware_version : String
  pub station_id : String

pub record StatusNotificationRequest : Type 0 where
  pub connector_id : ℤ
  pub connector_status : String
  pub error_code : String
  pub info : String
  pub timestamp : Time
  pub vendor_id : String
  pub station_id : String

pub record StartTransactionRequest : Type 0 where
  pub connector_id : ℤ
  pub id_tag : String
  pub meter_start : ℤ
  pub reservation_id : ℤ
  pub timestamp : Time
  pub station_id : String
  pub transaction_id : String

pub record StopTransactionRequest : Type 0 where
  pub transaction_id : String
  pub id_tag : String
  pub meter_stop : ℤ
  pub timestamp : Time
  pub reason : String
  pub station_id : String
  pub meter_start : ℤ

pub record MeterValuesRequest (R : Type 0) : Type 0 where
  pub station_id : String
  pub connector_id : ℤ
  pub transaction_id : String
  pub meter_value : R
  pub timestamp : Time

module _ {R : Type 0} where
  unfoldable pub decode_boot : Json R → Result BootNotificationRequest
  decode_boot j = do
    fs ← fields_of j
    vendor ← as_string (get "chargePointVendor" fs)
    model ← as_string (get "chargePointModel" fs)
    serial ← as_string (get "chargePointSerialNumber" fs)
    box ← as_string (get "chargeBoxSerialNumber" fs)
    firmware ← as_string (get "firmwareVersion" fs)
    station ← as_string (get "stationId" fs)
    ok (record {
      charge_point_vendor = vendor;
      charge_point_model = model;
      charge_point_serial = serial;
      charge_box_serial = box;
      firmware_version = firmware;
      station_id = station;
    })

  unfoldable pub decode_status : Json R → Result StatusNotificationRequest
  decode_status j = do
    fs ← fields_of j
    connector ← as_int64 (get "connectorId" fs)
    status ← as_string (get "status" fs)
    code ← as_string (get "errorCode" fs)
    info ← as_string (get "info" fs)
    stamp ← as_time (get "timestamp" fs)
    vendor ← as_string (get "vendorId" fs)
    station ← as_string (get "stationId" fs)
    ok (record {
      connector_id = connector;
      connector_status = status;
      error_code = code;
      info = info;
      timestamp = stamp;
      vendor_id = vendor;
      station_id = station;
    })

  unfoldable pub decode_start : Json R → Result StartTransactionRequest
  decode_start j = do
    fs ← fields_of j
    connector ← as_int64 (get "connectorId" fs)
    tag ← as_string (get "idTag" fs)
    meter ← as_int64 (get "meterStart" fs)
    reservation ← as_int64 (get "reservationId" fs)
    stamp ← as_time (get "timestamp" fs)
    station ← as_string (get "stationId" fs)
    transaction ← as_string (get "transactionId" fs)
    ok (record {
      connector_id = connector;
      id_tag = tag;
      meter_start = meter;
      reservation_id = reservation;
      timestamp = stamp;
      station_id = station;
      transaction_id = transaction;
    })

  unfoldable pub decode_stop : Json R → Result StopTransactionRequest
  decode_stop j = do
    fs ← fields_of j
    transaction ← as_string (get "transactionId" fs)
    tag ← as_string (get "idTag" fs)
    meter ← as_int64 (get "meterStop" fs)
    stamp ← as_time (get "timestamp" fs)
    reason ← as_string (get "reason" fs)
    station ← as_string (get "stationId" fs)
    start ← as_int64 (get "meterStart" fs)
    ok (record {
      transaction_id = transaction;
      id_tag = tag;
      meter_stop = meter;
      timestamp = stamp;
      reason = reason;
      station_id = station;
      meter_start = start;
    })

module _ {R : Type 0} ⦃p : Platform R⦄ where
  unfoldable pub decode_meter : Json R → Result (MeterValuesRequest R)
  decode_meter j = do
    fs ← fields_of j
    station ← as_string (get "stationId" fs)
    connector ← as_int64 (get "connectorId" fs)
    transaction ← as_string (get "transactionId" fs)
    value ← as_float (get "meterValue" fs)
    stamp ← as_time (get "timestamp" fs)
    ok (record {
      station_id = station;
      connector_id = connector;
      transaction_id = transaction;
      meter_value = value;
      timestamp = stamp;
    })

  abbrev pub json_time : Time → Json R
  json_time t = time (p.format_time t) t

  -- BootNotificationResponse, with the interval and the status that its handler gives.
  unfoldable pub boot_response : Time → Json R
  boot_response now = obj (
      field "currentTime" (json_time now)
        (field "interval" (int (pos 30)) (field "status" (str "Accepted") end)))

  unfoldable pub heartbeat_response : Time → Json R
  heartbeat_response now = obj (field "currentTime" (json_time now) end)

module _ {R : Type 0} where
  unfoldable pub start_response : String → Json R
  start_response transaction = obj (
      field "transactionId" (str transaction)
        (field "idTagInfo" (obj (field "status" (str "Accepted") end)) end))

  -- StatusNotificationResponse and StopTransactionResponse
  unfoldable pub empty_response : Json R
  empty_response = obj end
