-- ===== src/Csms/Panics.antt =====
-- A frame whose claimed length is too much for make (ReadMessage in csms/internal/ws/simple.go).
use drive_power.Prelude.{
  ℕ, ◌^◌, ◌<◌, ◌≡◌, refl, ap, ◌∙◌, List, ◌∷◌, ◌++◌, some, true, length, ltb, arith,
}
use drive_power.Csms.Conn.{Conn, panicked, panics, ended, Round, read_frame, read_byte, dispatch}
use drive_power.Csms.Reading.{round, read_message, read_loop-ended}
use drive_power.Csms.ClientFrames.{
  waiting, size_byte, extended_size, size_byte-masked, read_length-size, read_full_prefix,
  append_assoc,
}

-- The header of a client's frame that claims a length: its mask bit is set.
unfoldable pub claiming : ℕ → ℕ → List ℕ → List ℕ
claiming first n mask = first ∷ size_byte n ∷ (extended_size n ++ mask)

too_long : (n k : ℕ) → k < n → ltb k n ≡ true
too_long n k h = ground (arith, h)

read_frame-panics :
    (first n : ℕ) (mask rest : List ℕ) (c : Conn)
    → length mask ≡ 4
    → n < 2 ^ 63
    → c.largest < n
    → read_frame (waiting c (claiming first n mask ++ rest)) ≡ (panicked, waiting c rest)
unfolding read_frame read_byte claiming
read_frame-panics first n mask rest c four short long =
    rw
      (
        append_assoc (extended_size n) mask rest,
        size_byte-masked n,
        read_length-size n (mask ++ rest) c short,
        read_full_prefix 4 mask rest c four,
        too_long n c.largest long,
      )
      refl

-- A client's frame that claims a length below 2 ^ 63, but above that of the longest slice the runtime
-- makes, makes ReadMessage panic once its header and its mask are read, whatever follows.
pub read_message-panics :
    (first n : ℕ) (mask rest : List ℕ) (c : Conn)
    → length mask ≡ 4
    → n < 2 ^ 63
    → c.largest < n
    → read_message (waiting c (claiming first n mask ++ rest)) ≡ some (panics, waiting c rest)
unfolding read_message round dispatch
read_message-panics first n mask rest c four short long =
    let waits = waiting c (claiming first n mask ++ rest) in
    let e : round waits ≡ (ended panics, waiting c rest) =
      ap dispatch (read_frame-panics first n mask rest c four short long) in
    read_loop-ended (length waits.input) panics waits (ap (λ (o : Round × Conn). o.0) e)
    ∙ ap (λ (o : Round × Conn). some (panics, o.1)) e
