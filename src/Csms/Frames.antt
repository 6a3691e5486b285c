-- ===== src/Csms/Frames.antt =====
-- A reader of frames by the framing rules of RFC 6455, for what csms/internal/ws/simple.go writes.
use drive_power.Prelude.{
  ℕ, zero, suc, ◌-◌, List, [], ◌∷◌, Option, some, none, length, Bool, ◌&&◌, ◌||◌, eqb,
  if◌then◌else◌, take, drop, leb, ltb,
}
use drive_power.Csms.Bytes.{big_endian_from}

pub record Sent : Type 0 where
  pub kind : ℕ
  pub bytes : List ℕ

-- A frame that is whole and unmasked, and what follows it.
unfoldable pub exactly : ℕ → ℕ → List ℕ → Option (Sent × List ℕ)
exactly kind n bytes =
    if leb n (length bytes)
    then some (record { kind = kind; bytes = take n bytes }, drop n bytes)
    else none

-- The opcodes of whole frames: text, binary, close, ping and pong.
unfoldable pub is_opcode : ℕ → Bool
is_opcode kind = eqb kind 1 || eqb kind 2 || eqb kind 8 || eqb kind 9 || eqb kind 10

-- A frame by its second byte. The payload of a control frame has 125 bytes at most, and that of a
-- close none or at least the two of its status; a length in 2 or 8 bytes is none that fits in fewer.
unfoldable pub sized : ℕ → ℕ → List ℕ → Option (Sent × List ℕ)
unfolding exactly
sized kind size bytes =
    let short = big_endian_from 0 (take 2 bytes) in
    let long = big_endian_from 0 (take 8 bytes) in
    if ltb size 126
    then (if eqb kind 8 && eqb size 1 then none else exactly kind size bytes)
    else if leb 8 kind
    then none
    else if eqb size 126
    then (if ltb short 126 then none else exactly kind short (drop 2 bytes))
    else if eqb size 127
    then (if ltb long 65536 then none else exactly kind long (drop 8 bytes))
    else none

unfoldable pub parse_frame : List ℕ → Option (Sent × List ℕ)
unfolding sized is_opcode
parse_frame (first ∷ second ∷ bytes) =
    if leb 128 first
    then (if is_opcode (first - 128) then sized (first - 128) second bytes else none)
    else none
parse_frame _ = none

abbrev pub then_frame : Sent → Option (List Sent) → Option (List Sent)
then_frame s none = none
then_frame s (some others) = some (s ∷ others)

-- A frame that is the last.
abbrev pub alone : Sent → List ℕ → Option (List Sent)
alone s [] = some (s ∷ [])
alone s (b ∷ bs) = none

-- A stream of frames, up to a number of them. After a close there is nothing.
unfoldable pub parse_stream : ℕ → List ℕ → Option (List Sent)
parse_stream zero bytes = elim bytes [ [] ↦ some [] | b ∷ bs ↦ none ]
parse_stream (suc n) bytes = elim (parse_frame bytes) [
  | none ↦ none
  | some (s, rest) ↦
      let others = parse_stream n rest in if eqb s.kind 8 then alone s rest else then_frame s others
]
