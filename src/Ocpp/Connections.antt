-- ===== src/Ocpp/Connections.antt =====
-- backend/services/ocpp-server/internal/ws: the connections of the stations, the manager that knows
-- them by station, and the queues of frames between the two pumps of a connection. Deadlines and
-- pings, and the bytes that gorilla/websocket moves, are not modelled.
use drive_power.Prelude.{
  ℕ, suc, String, Bool, true, false, List, [], ◌∷◌, ◌++◌, length, Option, none, some, Assoc, lookup,
  insert, delete, ltb, ◌==◌, string_eq, nat_eq, if◌then◌else◌,
}
use drive_power.Go.{Result, ok, err, Json}

-- `send` is the channel of the connection, its oldest frame first; `closed` once it is closed.
pub record Connection (R : Type 0) : Type 0 where
  pub station_id : String
  pub send : List (Json R)
  pub closed : Bool

-- The connections by number, in the order of their upgrades, and the manager's map from stations to
-- the numbers of their connections.
pub record Hub (R : Type 0) : Type 0 where
  pub next : ℕ
  pub open_connections : Assoc ℕ (Connection R)
  pub connections : Assoc String ℕ

-- The channel has room for 16 frames.
abbrev pub capacity : ℕ
capacity = 16

module _ {R : Type 0} where
  unfoldable pub new_connection : String → Connection R
  new_connection station = record { station_id = station; send = []; closed = false }

  -- Manager.Add and Manager.Remove
  unfoldable pub add : String → ℕ → Hub R → Hub R
  add station n h = record h { connections = insert station n h.connections }

  unfoldable pub remove : String → Hub R → Hub R
  remove station h = record h { connections = delete station h.connections }

  -- The hub that a new connection leaves.
  unfoldable pub joined : String → Hub R → Hub R
  joined station h = add station h.next (record h {
    next = suc h.next;
    open_connections = insert h.next (new_connection station) h.open_connections;
  })

  -- HandleWS, with the outcome of the upgrade. The status is `none` where the library answers: it takes
  -- the connection over or refuses it.
  unfoldable pub handle_ws : String → Bool → Hub R → Option ℕ × Hub R
  handle_ws station upgraded h =
      if station == ""
      then (some 400, h)
      else if upgraded
      then (none, joined station h)
      else (none, h)

  -- Send: a panic on a closed channel is recovered. The channel is made with room for 16 frames, and a
  -- select with a default sends on it where it has room and drops the frame where it is full.
  unfoldable pub send_frame : Json R → Connection R → Connection R
  send_frame frame c =
      if c.closed
      then c
      else if ltb (length c.send) capacity
      then record c { send = c.send ++ (frame ∷ []) }
      else c

  -- The write pump takes the oldest frame.
  abbrev pub rest_of : List (Json R) → List (Json R)
  rest_of [] = []
  rest_of (frame ∷ frames) = frames

  unfoldable pub write_frame : Connection R → Connection R
  write_frame c = record c { send = rest_of c.send }

  abbrev pub change : ℕ → (Connection R → Connection R) → Hub R → Option (Connection R) → Hub R
  change n f h none = h
  change n f h (some c) = record h { open_connections = insert n (f c) h.open_connections }

  abbrev pub on_connection : ℕ → (Connection R → Connection R) → Hub R → Hub R
  on_connection n f h = change n f h (lookup n h.open_connections)

  abbrev pub closed_channel : Connection R → Connection R
  closed_channel c = record c { closed = true }

  -- cleanup, with the onClose that HandleWS gives. The read pump of a connection runs it once.
  abbrev pub closed_by : ℕ → Hub R → Option (Connection R) → Hub R
  closed_by n h none = h
  closed_by n h (some c) =
      let open_connections' = insert n (closed_channel c) h.open_connections in
      let h' = remove c.station_id (record h { open_connections = open_connections' }) in
      if c.closed then h else h'

  unfoldable pub cleanup : ℕ → Hub R → Hub R
  cleanup n h = closed_by n h (lookup n h.open_connections)

  -- A round of the read pump, with what the processor made of a frame.
  unfoldable pub read_round : ℕ → Result (Option (Json R)) → Hub R → Hub R
  read_round n (err e) h = h
  read_round n (ok none) h = h
  read_round n (ok (some frame)) h = on_connection n (send_frame frame) h

  -- What can happen to the hub, in any order.
  pub data Step : Hub R → Hub R → Type 0 where
    connect :
        (station : String) (upgraded : Bool) (h : Hub R) → Step h (handle_ws station upgraded h).1
    read : (n : ℕ) (out : Result (Option (Json R))) (h : Hub R) → Step h (read_round n out h)
    write : (n : ℕ) (h : Hub R) → Step h (on_connection n write_frame h)
    close : (n : ℕ) (h : Hub R) → Step h (cleanup n h)

  pub data Steps : Hub R → Hub R → Type 0 where
    start : (h : Hub R) → Steps h h
    then_ : (h h' h'' : Hub R) → Steps h h' → Step h' h'' → Steps h h''

  unfoldable pub empty_hub : Hub R
  empty_hub = record { next = 0; open_connections = []; connections = [] }
