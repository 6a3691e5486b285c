-- ===== src/Csms/Writing.antt =====
-- What WriteMessage (csms/internal/ws/simple.go) sends, as a reader by the framing rules of RFC 6455 finds it.
use drive_power.Prelude.{
  ℕ, suc, ◌+◌, ◌*◌, ◌^◌, ◌<◌, ◌≤◌, ◌≡◌, refl, ap, ◌∙◌, List, [], ◌∷◌, ◌++◌, Option, some, none,
  length, arith, ◌≢◌, ◌⊎◌, inl, inr, sym, take, drop, length-append,
}
use drive_power.Go.{Error}
use drive_power.Csms.Bytes.{
  put_big_endian, big_endian_from, big_endian-put, length-put_big_endian, opcode_bits,
}
use drive_power.Csms.Conn.{Conn, write_message, frame_header}
use drive_power.Csms.ClientFrames.{append_assoc, take_prefix, drop_prefix}
use drive_power.Csms.Delivery.{IsDelivered}
use drive_power.Csms.Frames.{Sent, exactly, is_opcode, sized, parse_frame, parse_stream}

-- Writes one after another, until one fails.
unfoldable pub write_all : List Sent → Conn → Option Error × Conn
write_all [] c = (none, c)
write_all (s ∷ ss) c =
    let (problem, c') = write_message s.kind s.bytes c in
    elim problem [ some e ↦ (some e, c') | none ↦ write_all ss c' ]

-- A message that can be sent: a close has no payload, or one of 2 to 125 bytes.
pub record IsWritable (s : Sent) : Type 0 where
  pub kind : IsDelivered s.kind
  pub short : length s.bytes < 2 ^ 63
  pub closing :
      (s.kind ≢ 8) ⊎ (length s.bytes ≡ 0) ⊎ ((2 ≤ length s.bytes) × (length s.bytes ≤ 125))

-- Messages that can be sent one after another: nothing follows a close.
abbrev pub IsSession : List Sent → Type 0
IsSession [] = Unit
IsSession (s ∷ ss) = IsWritable s × ((s.kind ≢ 8) ⊎ (ss ≡ [])) × IsSession ss

abbrev framed : Sent → List ℕ
framed s = frame_header s.kind (length s.bytes) ++ s.bytes

exactly_lem :
    (kind n : ℕ) (bytes rest : List ℕ)
    → length bytes ≡ n
    → exactly kind n (bytes ++ rest) ≡ some (record { kind = kind; bytes = bytes }, rest)
unfolding exactly
exactly_lem kind n bytes rest e =
    rw (← e)
      (ground (arith, take_prefix bytes rest, drop_prefix bytes rest, length-append bytes rest))

take_width : (k : ℕ) (xs rest : List ℕ) → length xs ≡ k → take k (xs ++ rest) ≡ xs
take_width k xs rest e = rw (← e) (take_prefix xs rest)

drop_width : (k : ℕ) (xs rest : List ℕ) → length xs ≡ k → drop k (xs ++ rest) ≡ rest
drop_width k xs rest e = rw (← e) (drop_prefix xs rest)

-- The length in k bytes is read back, and the payload stands behind it.
extended :
    (k : ℕ) (s : Sent) (rest : List ℕ)
    → length s.bytes < 256 ^ k
    → (big_endian_from 0 (take k (put_big_endian k (length s.bytes) ++ s.bytes ++ rest))
        ≡ length s.bytes)
      × (drop k (put_big_endian k (length s.bytes) ++ s.bytes ++ rest) ≡ s.bytes ++ rest)
extended k s rest h =
    let size = put_big_endian k (length s.bytes) in
    let after = s.bytes ++ rest in
    let width = length-put_big_endian k (length s.bytes) in
    (
      ap (λ (bytes : List ℕ). big_endian_from 0 (take k bytes)) (append_assoc size s.bytes rest)
          ∙ ap (big_endian_from 0) (take_width k size after width)
          ∙ big_endian-put k (length s.bytes) h,
      ap (λ (bytes : List ℕ). drop k bytes) (append_assoc size s.bytes rest)
          ∙ drop_width k size after width,
    )

parse_frame-framed :
    (s : Sent) (rest : List ℕ) → IsWritable s → parse_frame (framed s ++ rest) ≡ some (s, rest)
unfolding parse_frame frame_header sized is_opcode
parse_frame-framed s rest h =
    let n = length s.bytes in
    ground (
      arith,
      h.kind,
      h.closing,
      (opcode_bits s.kind (ground (arith, h.kind))).1,
      λ (k : n < 256 ^ 2). extended 2 s rest k,
      extended 8 s rest (omega arith),
      exactly_lem s.kind n s.bytes rest refl,
    )

length-framed : (s : Sent) → length (framed s) ≤ length s.bytes + 10
unfolding frame_header
length-framed s = ground (
  arith,
  length-append (put_big_endian 2 (length s.bytes)) s.bytes,
  length-append (put_big_endian 8 (length s.bytes)) s.bytes,
  length-put_big_endian 2 (length s.bytes),
  length-put_big_endian 8 (length s.bytes),
)

write_message-framed :
    (s : Sent) (c : Conn)
    → IsWritable s
    → c.write_error ≡ none
    → write_message s.kind s.bytes c ≡ (none, record c { output = c.output ++ framed s })
unfolding write_message
write_message-framed s c h calm = ground (arith, h.kind, calm)

-- The bytes of a list of messages, and the room that they take: ten bytes for a header at most.
abbrev pub payload_bytes : List Sent → ℕ
payload_bytes [] = 0
payload_bytes (s ∷ ss) = length s.bytes + payload_bytes ss

append-nil : (xs : List ℕ) → xs ≡ xs ++ []
append-nil [] = refl
append-nil (x ∷ xs) = rw⁻¹ (append-nil xs) refl

write_all-step :
    (s : Sent) (ss : List Sent) (c : Conn)
    → IsWritable s
    → c.write_error ≡ none
    → write_all (s ∷ ss) c ≡ write_all ss (record c { output = c.output ++ framed s })
unfolding write_all
write_all-step s ss c h calm = ground (arith, write_message-framed s c h calm)

parse_stream-step :
    (n : ℕ) (s : Sent) (ss : List Sent) (bytes rest : List ℕ)
    → s.kind ≢ 8
    → parse_frame bytes ≡ some (s, rest)
    → parse_stream n rest ≡ some ss
    → parse_stream (suc n) bytes ≡ some (s ∷ ss)
unfolding parse_stream
parse_stream-step n s ss bytes rest goes_on e e' = ground (arith, goes_on, e, e')

parse_stream-close :
    (n : ℕ) (s : Sent) (bytes : List ℕ)
    → parse_frame bytes ≡ some (s, [])
    → parse_stream n [] ≡ some []
    → parse_stream (suc n) bytes ≡ some (s ∷ [])
unfolding parse_stream
parse_stream-close n s bytes e e' = ground (arith, e, e')

nothing_left : (bytes : List ℕ) → parse_stream 0 bytes ≡ some [] → bytes ≡ []
unfolding parse_stream
nothing_left [] h = refl
nothing_left (b ∷ bs) h = absurd (ground (arith, h))

parse_stream-next :
    (s : Sent) (ss : List Sent) (bytes : List ℕ)
    → IsWritable s
    → (s.kind ≢ 8) ⊎ (ss ≡ [])
    → parse_stream (length ss) bytes ≡ some ss
    → parse_stream (suc (length ss)) (framed s ++ bytes) ≡ some (s ∷ ss)
parse_stream-next s ss bytes h (inl goes_on) read =
    parse_stream-step (length ss) s ss (framed s ++ bytes) bytes goes_on
      (parse_frame-framed s bytes h) read
parse_stream-next s [] bytes h (inr last) read =
    let done : bytes ≡ [] = nothing_left bytes read in
    parse_stream-close 0 s (framed s ++ bytes)
      (parse_frame-framed s bytes h ∙ ap (λ (rest : List ℕ). some (s, rest)) done)
      (ap (parse_stream 0) (sym done) ∙ read)
parse_stream-next s (t ∷ ts) bytes h (inr last) read = absurd (ground (arith, last))

-- Messages written one after another, of which a close is the last and has no payload or one of 2 to
-- 125 bytes, all go out, where the flushes succeed. What was added to the output is a stream of whole
-- frames by the rules of RFC 6455 on opcodes, lengths and closes, and holds the messages with their
-- kinds and in their order; it takes ten bytes for each message at most beside the payloads.
pub write_all-understood :
    (ss : List Sent) (c : Conn)
    → c.write_error ≡ none
    → IsSession ss
    → (bytes : List ℕ) × (write_all ss c ≡ (none, record c { output = c.output ++ bytes }))
      × (parse_stream (length ss) bytes ≡ some ss)
      × (length bytes ≤ payload_bytes ss + 10 * length ss)
unfolding write_all parse_stream
write_all-understood [] c calm h = (
  [],
  ap (λ (out : List ℕ). (none, record c { output = out })) (append-nil c.output),
  refl,
  omega arith,
)
write_all-understood (s ∷ ss) c calm (h, last, hs) =
    let c' = record c { output = c.output ++ framed s } in
    let (bytes, wrote, read, room) = write_all-understood ss c' calm hs in
    (
      framed s ++ bytes,
      write_all-step s ss c h calm
          ∙ (wrote
              ∙ ap (λ (out : List ℕ). (none, record c { output = out }))
                  (append_assoc c.output (framed s) bytes)),
      parse_stream-next s ss bytes h last read,
      omega (arith, length-append (framed s) bytes, length-framed s),
    )
