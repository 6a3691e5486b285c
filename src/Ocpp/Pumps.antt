-- ===== src/Ocpp/Pumps.antt =====
-- One connection with its two pumps and the processor behind it: readPump and writePump of
-- backend/services/ocpp-server/internal/ws/connection.go, while neither fails.
use drive_power.Prelude.{
  String, List, [], ◌∷◌, ◌++◌, Option, none, some, Bool, true, ◌&&◌, length, ltb, Assoc,
}
use drive_power.Go.{Result, ok, err, Platform, Json}
use drive_power.Ocpp.Model.{Server, Env}
use drive_power.Ocpp.Handlers.{HandlerFunc}
use drive_power.Ocpp.Processor.{process}
use drive_power.Ocpp.Connections.{Connection, capacity, send_frame, write_frame}

-- The state of the server, the connection, and what has been written to the station.
pub record Line (R W : Type 0) : Type 0 where
  pub server : Server R W
  pub connection : Connection R
  pub written : List (Json R)

-- A message that the read pump takes, at an instant, or a turn of the write pump.
pub data Event (R : Type 0) : Type 0 where
  receive : Env → Option (Json R) → Event R
  deliver : Event R

module _ {R : Type 0} where
  -- Where Process fails or makes no response, nothing is sent.
  abbrev pub queued : Result (Option (Json R)) → Connection R → Connection R
  queued (err e) c = c
  queued (ok none) c = c
  queued (ok (some frame)) c = send_frame frame c

  abbrev pub next_frame : List (Json R) → List (Json R)
  next_frame [] = []
  next_frame (frame ∷ frames) = frame ∷ []

module _ {R W : Type 0} ⦃p : Platform R⦄ where
  unfoldable pub on_receive :
      Assoc String (HandlerFunc R W) → Env → Option (Json R) → Line R W → Line R W
  on_receive handlers env raw l =
      let (out, server) = process handlers env l.connection.station_id raw l.server in
      record l { server = server; connection = queued out l.connection }

  -- The write pump waits where the channel is empty.
  unfoldable pub on_deliver : Line R W → Line R W
  on_deliver l = record l {
    connection = write_frame l.connection;
    written = l.written ++ next_frame l.connection.send;
  }

  unfoldable pub run : Assoc String (HandlerFunc R W) → List (Event R) → Line R W → Line R W
  run handlers [] l = l
  run handlers (receive env raw ∷ events) l = run handlers events (on_receive handlers env raw l)
  run handlers (deliver ∷ events) l = run handlers events (on_deliver l)

  -- The channel is open, and has room at every message that comes in.
  unfoldable pub has_room : Assoc String (HandlerFunc R W) → List (Event R) → Line R W → Bool
  has_room handlers [] l = true
  has_room handlers (receive env raw ∷ events) l =
      ltb (length l.connection.send) capacity
      && has_room handlers events (on_receive handlers env raw l)
  has_room handlers (deliver ∷ events) l = has_room handlers events (on_deliver l)
