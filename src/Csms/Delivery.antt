-- ===== src/Csms/Delivery.antt =====
-- Which frames of a client ReadMessage (csms/internal/ws/simple.go) delivers.
use drive_power.Prelude.{
  ℕ, ◌^◌, ◌<◌, ◌≤◌, ◌≡◌, refl, ap, ◌∙◌, ◌⊎◌, List, [], ◌∷◌, ◌++◌, Option, some, none, length, All,
  arith, eqb, if◌then◌else◌,
}
use drive_power.Go.{Error, message}
use drive_power.Csms.Bytes.{IsByte}
use drive_power.Csms.Conn.{
  Conn, got, returns, Round, returned, again, dispatch, pong, write_control, write_message, failed,
  eof,
}
use drive_power.Csms.Reading.{round, read_message, read_message-again, read_loop-ended}
use drive_power.Csms.ClientFrames.{
  client_frame, waiting, IsMask, append_assoc, read_frame-client_frame,
}

-- A frame that a client can send: its mask and its payload, which the runtime can make a slice for.
pub record ClientFrame : Type 0 where
  pub mask : List ℕ
  pub payload : List ℕ

pub record IsSendable (c : Conn) (f : ClientFrame) : Type 0 where
  pub mask : IsMask f.mask
  pub bytes : All IsByte f.payload
  pub short : length f.payload < 2 ^ 63
  pub fits : length f.payload ≤ c.largest

-- The bytes of a frame, and those of a run of pongs.
unfoldable pub sent : ℕ → ClientFrame → List ℕ
sent opcode f = client_frame opcode f.mask f.payload

unfoldable pub pongs : List ClientFrame → List ℕ
pongs [] = []
pongs (f ∷ fs) = sent 10 f ++ pongs fs

round-sent :
    (opcode : ℕ) (f : ClientFrame) (rest : List ℕ) (c : Conn)
    → opcode < 16
    → IsSendable c f
    → round (waiting c (sent opcode f ++ rest)) ≡ dispatch (got (opcode, f.payload), waiting c rest)
unfolding round sent
round-sent opcode f rest c small h =
    ap dispatch
      (read_frame-client_frame opcode f.mask f.payload rest c small h.mask h.bytes h.short h.fits)

-- Pongs are passed over.
read_message-pongs :
    (fs : List ClientFrame) (rest : List ℕ) (c : Conn)
    → All (IsSendable c) fs
    → read_message (waiting c (pongs fs ++ rest)) ≡ read_message (waiting c rest)
unfolding pongs dispatch
read_message-pongs [] rest c h = refl
read_message-pongs (f ∷ fs) rest c (h, hs) =
    let bytes = sent 10 f ++ (pongs fs ++ rest) in
    let e : round (waiting c bytes) ≡ (again, waiting c (pongs fs ++ rest)) =
      round-sent 10 f (pongs fs ++ rest) c (omega arith) h in
    ap (λ (b : List ℕ). read_message (waiting c b)) (append_assoc (sent 10 f) (pongs fs) rest)
    ∙ read_message-again (waiting c bytes) (ap (λ (o : Round × Conn). o.0) e)
    ∙ ap (λ (o : Round × Conn). read_message o.1) e
    ∙ read_message-pongs fs rest c hs

-- A round that ends the loop is the whole reading.
read_message-returned :
    (opcode : ℕ) (payload : List ℕ) (problem : Option Error) (c c' : Conn)
    → round c ≡ (returned opcode payload problem, c')
    → read_message c ≡ some (returns opcode payload problem, c')
unfolding read_message
read_message-returned opcode payload problem c c' e =
    read_loop-ended (length c.input) (returns opcode payload problem) c
      (ap (λ (o : Round × Conn). o.0) e)
    ∙ ap (λ (o : Round × Conn). some (returns opcode payload problem, o.1)) e

-- The error that comes with a message: io.EOF with a close.
abbrev pub ending : ℕ → Option Error
ending opcode = if eqb opcode 8 then some eof else none

abbrev pub IsDelivered : ℕ → Type 0
IsDelivered opcode = (opcode ≡ 1) ⊎ (opcode ≡ 2) ⊎ (opcode ≡ 8)

dispatch-delivered :
    (opcode : ℕ) (payload : List ℕ) (c : Conn)
    → IsDelivered opcode
    → (opcode < 16)
      × (dispatch (got (opcode, payload), c) ≡ (returned opcode payload (ending opcode), c))
unfolding dispatch
dispatch-delivered opcode payload c h = ground (arith, h)

-- A text, binary or close frame of a client is delivered with its opcode and its payload, and a
-- close with io.EOF, after any run of pongs; what follows it stays in the input. The frames are masked
-- as RFC 6455 has it, and the runtime can make slices of their payloads' lengths.
pub read_message-delivers :
    (opcode : ℕ) (f : ClientFrame) (before : List ClientFrame) (rest : List ℕ) (c : Conn)
    → IsDelivered opcode
    → IsSendable c f
    → All (IsSendable c) before
    → read_message (waiting c (pongs before ++ (sent opcode f ++ rest)))
      ≡ some (returns opcode f.payload (ending opcode), waiting c rest)
read_message-delivers opcode f before rest c kind h hs =
    let (small, e) = dispatch-delivered opcode f.payload (waiting c rest) kind in
    read_message-pongs before (sent opcode f ++ rest) c hs
    ∙ read_message-returned opcode f.payload (ending opcode) (waiting c (sent opcode f ++ rest))
        (waiting c rest) (round-sent opcode f rest c small h ∙ e)

dispatch-ping :
    (payload : List ℕ) (c : Conn)
    → c.deadline_error ≡ none
    → dispatch (got (9, payload), c)
      ≡ (failed (message "websocket: unsupported message type 10"), c)
unfolding dispatch pong write_control write_message drive_power.Go.format_nat
dispatch-ping payload c calm = rw calm refl

-- A ping is not answered: the pong is refused by WriteMessage, which knows no pongs, and
-- ReadMessage fails with its error, with nothing written, where the deadline of the write can be set
-- and the runtime can make slices of the payloads' lengths.
pub read_message-fails_on_ping :
    (f : ClientFrame) (before : List ClientFrame) (rest : List ℕ) (c : Conn)
    → c.deadline_error ≡ none
    → IsSendable c f
    → All (IsSendable c) before
    → read_message (waiting c (pongs before ++ (sent 9 f ++ rest)))
      ≡ some
          (returns 0 [] (some (message "websocket: unsupported message type 10")), waiting c rest)
read_message-fails_on_ping f before rest c calm h hs =
    read_message-pongs before (sent 9 f ++ rest) c hs
    ∙ read_message-returned 0 [] _ (waiting c (sent 9 f ++ rest)) (waiting c rest)
        (round-sent 9 f rest c (omega arith) h ∙ dispatch-ping f.payload (waiting c rest) calm)
