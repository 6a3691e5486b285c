-- ===== src/Csms/Tests.antt =====
-- The csms server on concrete input.
use drive_power.Prelude.{
  lookup, ℕ, ℤ, pos, ◌+◌, ◌*◌, ◌^◌, ◌≤◌, String, List, [], ◌∷◌, ◌++◌, none, some, true, false, ◌≡◌,
  refl, arith, inl, length, string_eq, int_eq,
}
use drive_power.Go.{Error, message, Result, ok, err, int, str, field, end, nil}
use drive_power.Go.Sample.{sample_platform}
use drive_power.Go.Texts.{
  equal_fold, fold_case, is_upper, split_at, trim_space, is_space, trim_left, trim_right,
}
use drive_power.Csms.Conn.{Conn, Ending, returns, panics, eof}
use drive_power.Csms.Reading.{read_message, read_loop, read_message_ends}
use drive_power.Csms.ClientFrames.{waiting}
use drive_power.Csms.Delivery.{
  ClientFrame, IsSendable, sent, pongs, read_message-delivers, read_message-fails_on_ping,
}
use drive_power.Csms.Panics.{claiming, read_message-panics}
use drive_power.Csms.Frames.{Sent, parse_stream}
use drive_power.Csms.Writing.{write_all, payload_bytes, write_all-understood}
use drive_power.Csms.Upgrades.{
  Upgrader, Header, hijacked, upgrade, compute_accept_key, upgrade_with, take_over,
  header_contains_token, any_value, any_part, choose, is_offered, trimmed_parts, parse_subprotocols,
}
use drive_power.Go.Digests.{base64, sha1, bytes_of, utf8_char}
use drive_power.Csms.Negotiation.{UpgradeCase, upgrade-UpgradeCase}
use drive_power.Csms.Calls.{Reading, text, close, serve, station_id}
use drive_power.Csms.Replies.{
  IsCall, frame, result, boot_fields, no_json, start, noise, boot, serve_until_heartbeat,
}

abbrev idle : Conn
idle = record {
  subprotocol = "";
  input = [];
  read_error = eof;
  output = [];
  write_error = none;
  deadline_error = none;
  largest = 2 ^ 47;
}

-- The example of RFC 6455: "Hello" under the mask 37 fa 21 3d.
abbrev hello : ClientFrame
hello = record {
  mask = 0x37 ∷ 0xfa ∷ 0x21 ∷ 0x3d ∷ [];
  payload = 0x48 ∷ 0x65 ∷ 0x6c ∷ 0x6c ∷ 0x6f ∷ [];
}

hello-IsSendable : IsSendable idle hello
hello-IsSendable = record {
  mask = record {
    four = refl;
    bytes = (omega arith, (omega arith, (omega arith, (omega arith, tt))));
  };
  bytes = (omega arith, (omega arith, (omega arith, (omega arith, (omega arith, tt)))));
  short = omega arith;
  fits = omega arith;
}

hello_bytes :
    sent 1 hello ≡ 0x81 ∷ 0x85 ∷ 0x37 ∷ 0xfa ∷ 0x21 ∷ 0x3d ∷ 0x7f ∷ 0x9f ∷ 0x4d ∷ 0x51 ∷ 0x58 ∷ []
unfolding sent drive_power.Csms.ClientFrames.client_frame drive_power.Csms.ClientFrames.size_byte
    drive_power.Csms.ClientFrames.extended_size drive_power.Csms.ClientFrames.masked
hello_bytes = refl

read_message-delivers_example :
    read_message (waiting idle (pongs (hello ∷ []) ++ (sent 1 hello ++ (7 ∷ []))))
    ≡ some (returns 1 hello.payload none, waiting idle (7 ∷ []))
read_message-delivers_example =
    read_message-delivers 1 hello (hello ∷ []) (7 ∷ []) idle (inl refl) hello-IsSendable
      (hello-IsSendable, tt)

read_message-fails_on_ping_example :
    read_message (waiting idle (pongs [] ++ (sent 9 hello ++ [])))
    ≡ some (returns 0 [] (some (message "websocket: unsupported message type 10")), waiting idle [])
read_message-fails_on_ping_example =
    read_message-fails_on_ping hello [] [] idle refl hello-IsSendable tt

read_message_ends_example :
    (out : Ending × Conn) × (read_message (waiting idle (0x81 ∷ 0x85 ∷ [])) ≡ some out)
    × (read_loop 5 (waiting idle (0x81 ∷ 0x85 ∷ [])) ≡ some out)
read_message_ends_example = read_message_ends (waiting idle (0x81 ∷ 0x85 ∷ [])) 5 (omega arith)

-- Fourteen bytes that claim 2 ^ 60 bytes of payload.
read_message-panics_example :
    read_message (waiting idle (claiming 0x82 (2 ^ 60) hello.mask ++ []))
    ≡ some (panics, waiting idle [])
read_message-panics_example =
    read_message-panics 0x82 (2 ^ 60) hello.mask [] idle refl (omega arith) (omega arith)

abbrev hi : Sent
hi = record { kind = 1; bytes = 0x68 ∷ 0x69 ∷ [] }

write_all-understood_example :
    (bytes : List ℕ) × (write_all (hi ∷ []) idle ≡ (none, record idle { output = [] ++ bytes }))
    × (parse_stream 1 bytes ≡ some (hi ∷ []))
    × (length bytes ≤ payload_bytes (hi ∷ []) + 10 * 1)
write_all-understood_example = write_all-understood (hi ∷ []) idle refl (
  record { kind = inl refl; short = omega arith; closing = inl (omega arith) },
  inl (omega arith),
  tt,
)

abbrev upgrader : Upgrader
upgrader = record { subprotocols = "ocpp2.0" ∷ []; origin_allowed = true }

abbrev offer : Header
offer =
    ("Connection", "keep-alive, Upgrade" ∷ [])
    ∷ ("Upgrade", "WebSocket" ∷ [])
    ∷ ("Sec-Websocket-Key", "dGhlIHNhbXBsZSBub25jZQ==" ∷ [])
    ∷ ("Sec-Websocket-Protocol", "ocpp1.6, ocpp2.0" ∷ [])
    ∷ []

upgrade-UpgradeCase_example :
    UpgradeCase upgrader offer (hijacked idle none) (upgrade upgrader offer [] (hijacked idle none))
upgrade-UpgradeCase_example = upgrade-UpgradeCase upgrader offer [] (hijacked idle none)

-- A boot, a text that is no JSON, and a heartbeat.
abbrev call : String → String → Reading ℤ
call action uid = record {
  message = frame (int (pos 2)) (str uid) (str action) nil;
  now = "2026-01-01T00:00:00Z";
  write_error = none;
  close_error = none;
}

call-IsCall : (action uid : String) → IsCall (call action uid) action uid
call-IsCall action uid = record {
  typ = int (pos 2);
  rest = nil;
  message = refl;
  call = refl;
  written = refl;
}

abbrev garbage : Reading ℤ
garbage = record (call "" "") { message = ok (1, none) }

serve_until_heartbeat_example :
    serve (call "BootNotification" "a" ∷ garbage ∷ call "Heartbeat" "b" ∷ call "Heartbeat" "c" ∷ [])
    ≡ (
      text (result "a" (boot_fields "2026-01-01T00:00:00Z"))
          ∷ text (result "b" (field "currentTime" (str "2026-01-01T00:00:00Z") end))
          ∷ close 1000 "Heartbeat test complete"
          ∷ [],
      false,
    )
serve_until_heartbeat_example =
    serve_until_heartbeat (call "BootNotification" "a" ∷ garbage ∷ []) _ (call "Heartbeat" "b") "b"
      (call "Heartbeat" "c" ∷ [])
      (boot (call "BootNotification" "a") "a" (garbage ∷ []) [] (call-IsCall "BootNotification" "a")
        (noise garbage [] [] (no_json refl) start))
      (call-IsCall "Heartbeat" "b") refl

station_names : (station_id "/ocpp/CP-7/" ≡ "CP-7") × (station_id "/ocpp/" ≡ "unknown")
unfolding station_id drive_power.Go.Texts.trim_prefix drive_power.Go.Texts.without_prefix
    drive_power.Go.Texts.trim_slashes trim_left trim_right
station_names = (refl, refl)

-- The digest is that of the example of RFC 6455.
accept_key : compute_accept_key "dGhlIHNhbXBsZSBub25jZQ==" ≡ "s3pPLMBiTxaQ9kYGzzhZRbK+xOo="
unfolding compute_accept_key base64 sha1 bytes_of utf8_char
accept_key = refl

-- The subprotocol that the server has is chosen among those that are offered.
negotiated :
    (upgrade upgrader offer [] (hijacked idle none)).result
    ≡ ok (record idle { subprotocol = "ocpp2.0" })
unfolding upgrade upgrade_with take_over header_contains_token any_value any_part choose is_offered
    trimmed_parts parse_subprotocols equal_fold fold_case is_upper split_at trim_space is_space
    trim_left trim_right lookup
negotiated = refl
