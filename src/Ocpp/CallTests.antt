-- ===== src/Ocpp/CallTests.antt =====
-- Runs of the processor of the OCPP server on frames.
use drive_power.Prelude.{
  ℤ, pos, String, Option, none, some, ◌≡◌, ◌↔◌, refl, string_eq, int_eq, nat_eq, ==_differ,
}
use drive_power.Go.{
  Error, Result, ok, err, message, Platform, Json, null, int, str, obj, arr, Items, nil, cons, end,
  field, fields_of, as_int64, as_string, as_float, as_time, Request, Response, zero_time,
}
use drive_power.Go.Sample.{sample_platform}
use drive_power.Ocpp.Messages.{
  StartTransactionRequest, StopTransactionRequest, MeterValuesRequest, decode_start, decode_stop,
  decode_meter, start_response, empty_response,
}
use drive_power.Ocpp.Frames.{
  Message, parse, parse_items, typed_frame, call_of, build_call_result, build_call_error,
}
use drive_power.Ocpp.Handlers.{transaction_of, started, stopped, metered}
use drive_power.Ocpp.Processor.{route, process, handlers, logged}
use drive_power.Ocpp.Calls.{
  IsProcessed, process-IsProcessed, unknown_action, meter_values_unanswered,
  start_transaction_answered, stop_transaction_answered,
}
use drive_power.Ocpp.Parsing.{IsCall, parse-IsCall}
use drive_power.Ocpp.Tests.{network, now, idle, charging}

-- A frame, and the call that it is.
abbrev frame : String → Json ℤ → Option (Json ℤ)
frame action payload =
    some (arr (cons (int (pos 2)) (cons (str "19") (cons (str action) (cons payload nil)))))

abbrev call : String → Json ℤ → Message ℤ
call action payload = record {
  message_type = pos 2;
  unique_id = "19";
  action = action;
  payload = payload;
}

parsed :
    (action : String) (payload : Json ℤ) → parse (frame action payload) ≡ ok (call action payload)
unfolding parse parse_items typed_frame call_of as_int64 as_string
parsed action payload = refl

parse-IsCall_example :
    (parse (frame "Heartbeat" (obj end)) ≡ ok (call "Heartbeat" (obj end)))
    ↔ IsCall (frame "Heartbeat" (obj end)) (call "Heartbeat" (obj end))
parse-IsCall_example = parse-IsCall (frame "Heartbeat" (obj end)) (call "Heartbeat" (obj end))

process-IsProcessed_example :
    IsProcessed now "19"
      (route
        (handlers network)
        now
        "S1"
        (call "Heartbeat" (obj end))
        (logged now "S1" "incoming" "Heartbeat" (frame "Heartbeat" (obj end)) idle))
      (process (handlers network) now "S1" (frame "Heartbeat" (obj end)) idle)
process-IsProcessed_example =
    process-IsProcessed (handlers network) now "S1" (frame "Heartbeat" (obj end))
      (call "Heartbeat" (obj end)) idle (parsed "Heartbeat" (obj end))

unknown_action_run : process (handlers network) now "S1" (frame "Reset" (obj end)) idle ≡ (
  ok (some (build_call_error "19" "InternalError" "error")),
  logged now "S1" "incoming" "Reset" (frame "Reset" (obj end)) idle,
)
unknown_action_run =
    unknown_action network now "S1" (frame "Reset" (obj end)) (call "Reset" (obj end)) idle
      (parsed "Reset" (obj end))
      (
        ==_differ _ _ refl,
        (
          ==_differ _ _ refl,
          (
            ==_differ _ _ refl,
            (==_differ _ _ refl, (==_differ _ _ refl, (==_differ _ _ refl, tt))),
          ),
        ),
      )

abbrev empty_meter : MeterValuesRequest ℤ
empty_meter = record {
  station_id = "";
  connector_id = pos 0;
  transaction_id = "";
  meter_value = pos 0;
  timestamp = zero_time;
}

meter_decoded : decode_meter {R = ℤ} (obj end) ≡ ok empty_meter
unfolding decode_meter fields_of drive_power.Go.get as_string as_int64 as_float as_time
meter_decoded = refl

meter_values_unanswered_example :
    process (handlers network) now "S1" (frame "MeterValues" (obj end)) idle ≡ (
      ok none,
      metered network empty_meter
          (logged now "S1" "incoming" "MeterValues" (frame "MeterValues" (obj end)) idle),
    )
meter_values_unanswered_example =
    meter_values_unanswered network now "S1" (frame "MeterValues" (obj end))
      (call "MeterValues" (obj end)) idle empty_meter (parsed "MeterValues" (obj end)) refl
      meter_decoded

abbrev named_start : StartTransactionRequest
named_start = record {
  connector_id = pos 0;
  id_tag = "";
  meter_start = pos 0;
  reservation_id = pos 0;
  timestamp = zero_time;
  station_id = "";
  transaction_id = "T1";
}

abbrev named_payload : Json ℤ
named_payload = obj (field "transactionId" (str "T1") end)

start_decoded : decode_start named_payload ≡ ok named_start
unfolding decode_start fields_of drive_power.Go.get as_string as_int64 as_time
start_decoded = refl

abbrev start_frame : Json ℤ
start_frame = build_call_result "19" (start_response (transaction_of now "S1" named_start))

start_transaction_answered_run :
    process (handlers network) now "S1" (frame "StartTransaction" named_payload) idle ≡ (
      ok (some start_frame),
      logged now "S1" "outgoing" "StartTransaction" (some start_frame) (
          started network now "S1" named_start (
            logged now "S1" "incoming" "StartTransaction"
              (frame "StartTransaction" named_payload)
              idle)),
    )
start_transaction_answered_run =
    start_transaction_answered network now "S1" (frame "StartTransaction" named_payload)
      (call "StartTransaction" named_payload) idle named_start
      (parsed "StartTransaction" named_payload) refl start_decoded refl

abbrev named_stop : StopTransactionRequest
named_stop = record {
  transaction_id = "T1";
  id_tag = "";
  meter_stop = pos 0;
  timestamp = zero_time;
  reason = "";
  station_id = "";
  meter_start = pos 0;
}

stop_decoded : decode_stop named_payload ≡ ok named_stop
unfolding decode_stop fields_of drive_power.Go.get as_string as_int64 as_time
stop_decoded = refl

abbrev stop_frame : Json ℤ
stop_frame = build_call_result "19" empty_response

stop_transaction_answered_run :
    process (handlers network) now "S1" (frame "StopTransaction" named_payload) charging ≡ (
      ok (some stop_frame),
      logged now "S1" "outgoing" "StopTransaction" (some stop_frame) (
          stopped network now "S1" named_stop (
            logged now "S1" "incoming" "StopTransaction"
              (frame "StopTransaction" named_payload)
              charging)),
    )
stop_transaction_answered_run =
    stop_transaction_answered network now "S1" (frame "StopTransaction" named_payload)
      (call "StopTransaction" named_payload) charging named_stop
      (parsed "StopTransaction" named_payload) refl stop_decoded refl
