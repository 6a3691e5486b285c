-- ===== src/Ocpp/Orders.antt =====
-- The replies of the processor reach the station, in the order of its calls.
use drive_power.Prelude.{
  ℕ, zero, suc, ◌≤◌, ◌<◌, String, List, [], ◌∷◌, ◌++◌, Option, none, some, Bool, true, false, ◌&&◌,
  ◌≡◌, refl, sym, ap, ◌∙◌, arith, length, length-append, ltb, Assoc,
}
use drive_power.Go.{Result, ok, err, Platform, Json}
use drive_power.Ocpp.Model.{Server, Env}
use drive_power.Ocpp.Handlers.{HandlerFunc}
use drive_power.Ocpp.Processor.{process}
use drive_power.Ocpp.Connections.{Connection, send_frame, write_frame, rest_of}
use drive_power.Ocpp.Pumps.{
  Line, Event, receive, deliver, queued, next_frame, on_receive, on_deliver, run, has_room,
}

ltb-true : (m n : ℕ) (b : Bool) → ltb m n && b ≡ true → (m < n) × (b ≡ true)
ltb-true m n b h = ground (arith, h)

module _ {R : Type 0} where
  append-nil : (xs : List (Json R)) → xs ++ [] ≡ xs
  append-nil [] = refl
  append-nil (x ∷ xs) = rw (append-nil xs) refl

  append_assoc : (xs ys zs : List (Json R)) → (xs ++ ys) ++ zs ≡ xs ++ (ys ++ zs)
  append_assoc [] ys zs = refl
  append_assoc (x ∷ xs) ys zs = rw (append_assoc xs ys zs) refl

  -- The frame that a message is answered with.
  abbrev reply_of : Result (Option (Json R)) → List (Json R)
  reply_of (err e) = []
  reply_of (ok none) = []
  reply_of (ok (some frame)) = frame ∷ []

  -- Turns of the write pump.
  abbrev pub turns : ℕ → List (Event R)
  turns zero = []
  turns (suc n) = deliver ∷ turns n

  queued-send :
      (out : Result (Option (Json R))) (c : Connection R)
      → c.closed ≡ false
      → length c.send < 16
      → (queued out c).send ≡ c.send ++ reply_of out
  unfolding send_frame
  queued-send (err e) c h k = sym (append-nil c.send)
  queued-send (ok none) c h k = sym (append-nil c.send)
  queued-send (ok (some frame)) c h k = ground (arith, h, k)

  queued-capacity :
      (out : Result (Option (Json R))) (c : Connection R)
      → length c.send ≤ 16
      → length (queued out c).send ≤ 16
  unfolding send_frame
  queued-capacity (err e) c h = h
  queued-capacity (ok none) c h = h
  queued-capacity (ok (some frame)) c h = ground (arith, h, length-append c.send (frame ∷ []))

  rest_of-capacity :
      (frames : List (Json R)) (n : ℕ) → length frames ≤ n → length (rest_of frames) ≤ n
  rest_of-capacity [] n h = h
  rest_of-capacity (frame ∷ frames) n h = omega arith

  rest_of-shorter :
      (frames : List (Json R)) (n : ℕ) → length frames ≤ suc n → length (rest_of frames) ≤ n
  rest_of-shorter [] n h = omega arith
  rest_of-shorter (frame ∷ frames) n h = omega arith

  nothing_waits : (written frames : List (Json R)) → length frames ≤ 0 → written ≡ written ++ frames
  nothing_waits written [] h = sym (append-nil written)
  nothing_waits written (frame ∷ frames) h = ground (arith, h)

  queued-same :
      (out : Result (Option (Json R))) (c : Connection R)
      → ((queued out c).closed ≡ c.closed) × ((queued out c).station_id ≡ c.station_id)
  unfolding send_frame
  queued-same (err e) c = (refl, refl)
  queued-same (ok none) c = (refl, refl)
  queued-same (ok (some frame)) c = ground arith

module _ {R W : Type 0} ⦃p : Platform R⦄ where
  -- The calls answered one after another by the processor alone, without queues.
  unfoldable pub replies :
      Assoc String (HandlerFunc R W) → String → List (Event R) → Server R W → List (Json R)
  replies handlers id [] s = []
  replies handlers id (receive env raw ∷ events) s =
      let (out, s') = process handlers env id raw s in reply_of out ++ replies handlers id events s'
  replies handlers id (deliver ∷ events) s = replies handlers id events s

  -- What was written and what waits.
  abbrev under_way : Line R W → List (Json R)
  under_way l = l.written ++ l.connection.send

  on_deliver-under_way : (l : Line R W) → under_way (on_deliver l) ≡ under_way l
  unfolding on_deliver write_frame
  on_deliver-under_way l = go l.connection.send
    where
      go :
          (frames : List (Json R))
          → (l.written ++ next_frame frames) ++ rest_of frames ≡ l.written ++ frames
      go [] = append-nil (l.written ++ []) ∙ refl
      go (frame ∷ frames) = append_assoc l.written (frame ∷ []) frames

  on_receive-under_way :
      (handlers : Assoc String (HandlerFunc R W)) (env : Env) (raw : Option (Json R)) (l : Line R W)
      → l.connection.closed ≡ false
      → length l.connection.send < 16
      → under_way (on_receive handlers env raw l)
        ≡ under_way l ++ reply_of (process handlers env l.connection.station_id raw l.server).0
  unfolding on_receive
  on_receive-under_way handlers env raw l open_ room =
      let out = (process handlers env l.connection.station_id raw l.server).0 in
      ap (λ q. l.written ++ q) (queued-send out l.connection open_ room)
      ∙ sym (append_assoc l.written l.connection.send (reply_of out))

  -- Nothing is lost, and nothing overtakes.
  run-under_way :
      (handlers : Assoc String (HandlerFunc R W)) (events : List (Event R)) (l : Line R W)
      → l.connection.closed ≡ false
      → has_room handlers events l ≡ true
      → under_way (run handlers events l)
        ≡ under_way l ++ replies handlers l.connection.station_id events l.server
  unfolding run has_room replies on_deliver write_frame on_receive
  run-under_way handlers [] l open_ room = sym (append-nil (under_way l))
  run-under_way handlers (deliver ∷ events) l open_ room =
      run-under_way handlers events (on_deliver l) open_ room
      ∙ ap (λ q. q ++ replies handlers l.connection.station_id events l.server)
          (on_deliver-under_way l)
  run-under_way handlers (receive env raw ∷ events) l open_ room =
      let (out, s') = process handlers env l.connection.station_id raw l.server in
      let (same_closed, same_id) = queued-same out l.connection in
      let (first, rest) = ltb-true _ _ _ room in
      run-under_way handlers events (on_receive handlers env raw l) (same_closed ∙ open_) rest
      ∙ ap (λ id. under_way (on_receive handlers env raw l) ++ replies handlers id events s')
          same_id
      ∙ ap (λ q. q ++ replies handlers l.connection.station_id events s')
          (on_receive-under_way handlers env raw l open_ first)
      ∙ append_assoc (under_way l) (reply_of out)
          (replies handlers l.connection.station_id events s')

  run-append :
      (handlers : Assoc String (HandlerFunc R W)) (xs ys : List (Event R)) (l : Line R W)
      → run handlers (xs ++ ys) l ≡ run handlers ys (run handlers xs l)
  unfolding run
  run-append handlers [] ys l = refl
  run-append handlers (receive env raw ∷ xs) ys l =
      run-append handlers xs ys (on_receive handlers env raw l)
  run-append handlers (deliver ∷ xs) ys l = run-append handlers xs ys (on_deliver l)

  run-turns :
      (handlers : Assoc String (HandlerFunc R W)) (n : ℕ) (l : Line R W)
      → length l.connection.send ≤ n
      → (run handlers (turns n) l).written ≡ under_way l
  unfolding run on_deliver write_frame
  run-turns handlers zero l h = nothing_waits l.written l.connection.send h
  run-turns handlers (suc n) l h =
      run-turns handlers n (on_deliver l) (rest_of-shorter l.connection.send n h)
      ∙ on_deliver-under_way l

  run-capacity :
      (handlers : Assoc String (HandlerFunc R W)) (events : List (Event R)) (l : Line R W)
      → length l.connection.send ≤ 16
      → length (run handlers events l).connection.send ≤ 16
  unfolding run on_deliver write_frame on_receive
  run-capacity handlers [] l h = h
  run-capacity handlers (receive env raw ∷ events) l h =
      run-capacity handlers events (on_receive handlers env raw l) (
        queued-capacity (process handlers env l.connection.station_id raw l.server).0 l.connection
          h)
  run-capacity handlers (deliver ∷ events) l h =
      run-capacity handlers events (on_deliver l) (rest_of-capacity l.connection.send 16 h)

  -- An open connection, with at most sixteen frames in its channel, goes through any order of messages and
  -- turns of its write pump, in which the channel has room at each message. After sixteen more turns of the
  -- write pump the station has got what waited at the start and then the replies that the processor alone
  -- gives to the same messages, in their order: none is lost, repeated or overtaken.
  pub replies_written :
      (handlers : Assoc String (HandlerFunc R W)) (events : List (Event R)) (l : Line R W)
      → l.connection.closed ≡ false
      → length l.connection.send ≤ 16
      → has_room handlers events l ≡ true
      → (run handlers (events ++ turns 16) l).written
        ≡ (l.written ++ l.connection.send)
          ++ replies handlers l.connection.station_id events l.server
  replies_written handlers events l open_ few room =
      ap (λ r. r.written) (run-append handlers events (turns 16) l)
      ∙ run-turns handlers 16 (run handlers events l) (run-capacity handlers events l few)
      ∙ run-under_way handlers events l open_ room
