-- ===== src/Csms/Conn.antt =====
-- Conn of csms/internal/ws/simple.go: reading and writing of messages. What the client has sent and
-- has not been read waits in `input`; what has been flushed to it is `output`.
use Prim.Native.Nat.{bit_and, bit_or, bit_xor}
use drive_power.Prelude.{
  ℕ, zero, suc, ◌+◌, ◌-◌, ◌%◌, ◌^◌, String, List, [], ◌∷◌, ◌++◌, Option, none, some, length, take,
  drop, eqb, leb, ltb, if◌then◌else◌, ◌==◌, string_eq,
}
use Prim.Native.String.{◌++◌ as append}
use drive_power.Go.{Error, message, format_nat}
use drive_power.Csms.Bytes.{big_endian_from, put_big_endian}

-- `read_error` is what a read past the input returns, io.EOF after the client has closed;
-- `write_error` and `deadline_error` are what a flush and SetWriteDeadline return. `largest` is the length of the longest slice of bytes
-- that the runtime makes: make panics for a longer one.
pub record Conn : Type 0 where
  pub subprotocol : String
  pub input : List ℕ
  pub read_error : Error
  pub output : List ℕ
  pub write_error : Option Error
  pub deadline_error : Option Error
  pub largest : ℕ

abbrev pub eof : Error
eof = message "EOF"

-- What io.ReadFull makes of the end of the input after some bytes.
abbrev pub within : Error → Error
within (message s) = if s == "EOF" then message "unexpected EOF" else message s
within e = e

-- What a part of the reading comes to: a value, an error to return, or a panic.
pub data Taken {ℓ} (A : Type ℓ) : Type ℓ where
  got : A → Taken A
  stopped : Error → Taken A
  panicked : Taken A

unfoldable pub read_byte : Conn → Taken ℕ × Conn
read_byte c = elim c.input [
  | [] ↦ (stopped c.read_error, c)
  | b ∷ bs ↦ (got b, record c { input = bs })
]

unfoldable pub read_full : ℕ → Conn → Taken (List ℕ) × Conn
read_full n c =
    if leb n (length c.input)
    then (got (take n c.input), record c { input = drop n c.input })
    else elim c.input [
      | [] ↦ (stopped c.read_error, c)
      | b ∷ bs ↦ (stopped (within c.read_error), record c { input = [] })
    ]

-- `if err != nil { return 0, nil, err }` after a read.
infixl 5 ◌>>◌
abbrev pub ◌>>◌ {ℓ κ} :
    {A : Type ℓ} {B : Type κ} → Taken A × Conn → (A → Conn → Taken B × Conn) → Taken B × Conn
(got a, c) >> f = f a c
(stopped e, c) >> f = (stopped e, c)
(panicked, c) >> f = (panicked, c)

-- The payload's length, from the second byte of the header.
unfoldable pub read_length : ℕ → Conn → Taken ℕ × Conn
read_length second c =
    let short = bit_and second 0x7F in
    if eqb short 126
    then read_full 2 c >> (λ bytes c. (got (big_endian_from 0 bytes), c))
    else if eqb short 127
    then read_full 8 c >> (λ bytes c.
      if ltb (2 ^ 63 - 1) (big_endian_from 0 bytes)
      then (stopped (message "websocket: payload too large"), c)
      else (got (big_endian_from 0 bytes), c))
    else (got short, c)

abbrev pub byte_at : ℕ → List ℕ → ℕ
byte_at n [] = 0
byte_at zero (b ∷ bs) = b
byte_at (suc n) (b ∷ bs) = byte_at n bs

-- The loop of `payload[i] ^= mask[i%4]` from the index `i` on.
unfoldable pub unmask_from : ℕ → List ℕ → List ℕ → List ℕ
unmask_from i mask [] = []
unmask_from i mask (b ∷ bs) = bit_xor b (byte_at (i % 4) mask) ∷ unmask_from (i + 1) mask bs

-- A frame up to the test of its opcode.
unfoldable pub read_frame : Conn → Taken (ℕ × List ℕ) × Conn
read_frame c = read_byte c >> (λ first c. read_byte c >> (λ second c.
    if eqb (bit_and second 0x80) 0
    then (stopped (message "websocket: received unmasked frame from client"), c)
    else read_length second c >> (λ size c. read_full 4 c >> (λ mask c.
      if ltb c.largest size
      then (panicked, c)
      else read_full size c >> (λ payload c.
        if eqb (bit_and first 0x80) 0
        then (stopped (message "websocket: fragmented frames not supported"), c)
        else (got (bit_and first 0x0F, unmask_from 0 mask payload), c))))))

abbrev pub opcode_of : ℕ → Option ℕ
opcode_of kind =
    if eqb kind 1
    then some 1
    else if eqb kind 2
    then some 2
    else if eqb kind 8
    then some 8
    else none

unfoldable pub frame_header : ℕ → ℕ → List ℕ
frame_header opcode size =
    bit_or 0x80 opcode
    ∷ (if ltb size 126
        then size % 256 ∷ []
        else if ltb size 65536
        then 126 ∷ put_big_endian 2 size
        else 127 ∷ put_big_endian 8 size)

abbrev pub flush : List ℕ → Conn → Option Error × Conn
flush bytes c = elim c.write_error [
  | some e ↦ (some e, c)
  | none ↦ (none, record c { output = c.output ++ bytes })
]

unfoldable pub write_message : ℕ → List ℕ → Conn → Option Error × Conn
write_message kind bytes c = elim (opcode_of kind) [
  | none ↦ (some (message (append "websocket: unsupported message type " (format_nat kind))), c)
  | some opcode ↦ flush (frame_header opcode (length bytes) ++ bytes) c
]

-- The deadline is reset after the write whatever its outcome, and an error of the write is returned
-- whether it is a timeout or not.
unfoldable pub write_control : ℕ → List ℕ → Conn → Option Error × Conn
write_control kind bytes c = elim c.deadline_error [
  | some e ↦ (some e, c)
  | none ↦ write_message kind bytes c
]

abbrev pub format_close_message : ℕ → List ℕ → List ℕ
format_close_message code text = put_big_endian 2 code ++ text

-- How ReadMessage ends: with an opcode, a payload and an error, or with a panic of make.
pub data Ending : Type 0 where
  returns : ℕ → List ℕ → Option Error → Ending
  panics : Ending

-- What a round of the loop of ReadMessage comes to: the end, or another round.
pub data Round : Type 0 where
  ended : Ending → Round
  again : Round

abbrev pub returned : ℕ → List ℕ → Option Error → Round
returned opcode payload problem = ended (returns opcode payload problem)

abbrev pub failed : Error → Round
failed e = returned 0 [] (some e)

unfoldable pub pong : List ℕ → Conn → Round × Conn
pong payload c =
    let (problem, c') = write_control 10 payload c in
    elim problem [ some e ↦ (failed e, c') | none ↦ (again, c') ]

unfoldable pub dispatch : Taken (ℕ × List ℕ) × Conn → Round × Conn
dispatch (stopped e, c) = (failed e, c)
dispatch (panicked, c) = (ended panics, c)
dispatch (got (opcode, payload), c) =
    if eqb opcode 1
    then (returned opcode payload none, c)
    else if eqb opcode 2
    then (returned opcode payload none, c)
    else if eqb opcode 8
    then (returned opcode payload (some eof), c)
    else if eqb opcode 9
    then pong payload c
    else if eqb opcode 10
    then (again, c)
    else (failed (message (append "websocket: unsupported opcode " (format_nat opcode))), c)
