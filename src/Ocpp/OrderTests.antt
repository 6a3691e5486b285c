-- ===== src/Ocpp/OrderTests.antt =====
-- A run of a connection of the OCPP server with its two pumps.
use drive_power.Prelude.{
  ℤ, pos, lookup, insert, String, false, true, [], ◌∷◌, ◌++◌, List, some, Option, ◌≡◌, refl, length,
  ◌≤◌, arith,
}
use drive_power.Go.{Json, as_int64, as_string, int, arr, cons, nil, str, obj, end}
use drive_power.Go.Sample.{sample_platform}
use drive_power.Ocpp.Frames.{build_call_error, parse, parse_items, typed_frame, call_of}
use drive_power.Ocpp.Processor.{handlers, process, process_message, route, register}
use drive_power.Ocpp.Connections.{send_frame, write_frame}
use drive_power.Ocpp.Pumps.{Line, Event, receive, deliver, run, has_room, on_receive, on_deliver}
use drive_power.Ocpp.Orders.{replies, replies_written, turns}
use drive_power.Ocpp.Tests.{Sent, network, now, idle}

abbrev line : Line ℤ Sent
line = record {
  server = idle;
  connection = record { station_id = "S1"; send = []; closed = false };
  written = [];
}

abbrev reset : String → Option (Json ℤ)
reset id = some (arr (cons (int (pos 2)) (cons (str id) (cons (str "Reset") (cons (obj end) nil)))))

-- Two calls come in before the first turn of the write pump, and a third one after it.
abbrev messages : List (Event ℤ)
messages =
    receive now (reset "1") ∷ (receive now (reset "2") ∷ (deliver ∷ (receive now (reset "3") ∷ [])))

room : has_room (handlers network) messages line ≡ true
unfolding has_room on_receive on_deliver process parse parse_items as_int64 typed_frame call_of
    as_string process_message route lookup handlers register insert send_frame write_frame
room = refl

few : length line.connection.send ≤ 16
few = ground arith

replies_written_example :
    (run (handlers network) (messages ++ turns 16) line).written
    ≡ build_call_error "1" "InternalError" "error"
      ∷ (build_call_error "2" "InternalError" "error"
          ∷ (build_call_error "3" "InternalError" "error" ∷ []))
unfolding replies process parse parse_items as_int64 typed_frame call_of as_string process_message
    route lookup handlers register insert
replies_written_example = replies_written (handlers network) messages line refl few room
