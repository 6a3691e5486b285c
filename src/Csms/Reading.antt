-- ===== src/Csms/Reading.antt =====
-- The loop of ReadMessage (csms/internal/ws/simple.go).
use drive_power.Prelude.{
  ℕ, zero, suc, ◌<◌, ◌≤◌, ◌≡◌, ◌⊎◌, ◌≢◌, ◌∙◌, refl, sym, ap, List, [], ◌∷◌, Option, some, none,
  length, drop, arith, inl, inr, Bool, true, false, if◌then◌else◌,
}
use drive_power.Csms.Conn.{
  Conn, Taken, got, stopped, panicked, Ending, Round, ended, again, dispatch, read_frame, read_byte,
  read_full, read_length, ◌>>◌, pong, write_control, write_message,
}

unfoldable pub round : Conn → Round × Conn
round c = dispatch (read_frame c)

unfoldable pub read_loop : ℕ → Conn → Option (Ending × Conn)
read_loop zero c = none
read_loop (suc fuel) c =
    let (r, c') = round c in elim r [ ended e ↦ some (e, c') | again ↦ read_loop fuel c' ]

-- A round takes a byte at least, so a round for each byte that waits, and one, are enough.
unfoldable pub read_message : Conn → Option (Ending × Conn)
read_message c = read_loop (suc (length c.input)) c

length-drop-le : (n : ℕ) (xs : List ℕ) → length (drop n xs) ≤ length xs
length-drop-le zero xs = omega arith
length-drop-le (suc n) [] = omega arith
length-drop-le (suc n) (x ∷ xs) = omega (arith, length-drop-le n xs)

-- No more input waits than `n` bytes.
data Within {A : Type 0} (n : ℕ) : A × Conn → Type 0 where
  here : (a : A) (c : Conn) → length c.input ≤ n → Within n (a, c)

bound-Within : {A : Type 0} (n : ℕ) (out : A × Conn) → length out.1.input ≤ n → Within n out
bound-Within n (a, c) h = Within.here a c h

Within-bound : {A : Type 0} (n : ℕ) (out : A × Conn) → Within n out → length out.1.input ≤ n
Within-bound n out (Within.here a c h) = h

>>-Within :
    {A B : Type 0} (n : ℕ) (out : Taken A × Conn) (f : A → Conn → Taken B × Conn)
    → Within n out
    → ((a : A) (c : Conn) → length c.input ≤ n → Within n (f a c))
    → Within n (out >> f)
>>-Within n (got a, c) f (Within.here _ _ h) k = k a c h
>>-Within n (stopped e, c) f (Within.here _ _ h) k = Within.here (stopped e) c h
>>-Within n (panicked, c) f (Within.here _ _ h) k = Within.here panicked c h

if-Within :
    {A : Type 0} (n : ℕ) (b : Bool) (x y : A × Conn)
    → Within n x
    → Within n y
    → Within n (if b then x else y)
if-Within n true x y h k = h
if-Within n false x y h k = k

read_byte-Within : (n : ℕ) (c : Conn) → length c.input ≤ n → Within n (read_byte c)
unfolding read_byte
read_byte-Within n c h = bound-Within n (read_byte c) (ground arith)

read_full-Within : (n k : ℕ) (c : Conn) → length c.input ≤ n → Within n (read_full k c)
unfolding read_full
read_full-Within n k c h = bound-Within n (read_full k c) (ground (arith, length-drop-le k c.input))

read_length-Within : (n b : ℕ) (c : Conn) → length c.input ≤ n → Within n (read_length b c)
unfolding read_length
read_length-Within n b c h = search (if-Within, >>-Within, read_full-Within, Within.here)

pong-input : (payload : List ℕ) (c : Conn) → (pong payload c).1.input ≡ c.input
unfolding pong write_control write_message
pong-input payload c = ground arith

dispatch-input : (out : Taken (ℕ × List ℕ) × Conn) → (dispatch out).1.input ≡ out.1.input
unfolding dispatch
dispatch-input (stopped e, c) = refl
dispatch-input (panicked, c) = refl
dispatch-input (got (opcode, payload), c) = ground (arith, pong-input payload c)

-- Past its first byte a frame takes no byte back.
read_frame-Within :
    (n b : ℕ) (bs : List ℕ) (c : Conn) → c.input ≡ b ∷ bs → length bs ≤ n → Within n (read_frame c)
unfolding read_frame read_byte
read_frame-Within n b bs c q h =
    rw (q, read_frame, read_byte)
      (search
        (>>-Within, if-Within, read_byte-Within, read_length-Within, read_full-Within, Within.here)
        depth 14)

-- Where no input waits, the round ends with the error of the read.
round_at_end : (c : Conn) → c.input ≡ [] → (round c).0 ≢ again
unfolding round dispatch read_frame read_byte
round_at_end c q h = ground (arith, q, h)

-- A round that goes on has taken a byte.
round-lt : (c : Conn) → (round c).0 ≡ again → length (round c).1.input < length c.input
unfolding round
round-lt c h = go c.input refl
  where
    go :
        (bytes : List ℕ)
        → c.input ≡ bytes
        → length (dispatch (read_frame c)).1.input < length c.input
    go [] q = absurd (round_at_end c q h)
    go (b ∷ bs) q =
        let stays = ap (λ (bytes : List ℕ). length bytes) (dispatch-input (read_frame c)) in
        let size = ap (λ (bytes : List ℕ). length bytes) q in
        let less = read_frame-Within (length bs) b bs c q (omega arith) in
        omega (arith, stays, size, Within-bound (length bs) (read_frame c) less)

Round-cases : (r : Round) → (r ≡ again) ⊎ ((e : Ending) × (r ≡ ended e))
Round-cases again = inl refl
Round-cases (ended e) = inr (e, refl)

pub read_loop-again :
    (fuel : ℕ) (c : Conn)
    → (round c).0 ≡ again
    → read_loop (suc fuel) c ≡ read_loop fuel (round c).1
unfolding read_loop
read_loop-again fuel c q = ground (arith, q)

pub read_loop-ended :
    (fuel : ℕ) (e : Ending) (c : Conn)
    → (round c).0 ≡ ended e
    → read_loop (suc fuel) c ≡ some (e, (round c).1)
unfolding read_loop
read_loop-ended fuel e c q = ground (arith, q)

-- The result does not depend on the fuel, once it exceeds the number of bytes that wait.
loop_answers :
    (fuel more : ℕ) (c : Conn)
    → length c.input < fuel
    → length c.input < more
    → (out : Ending × Conn) × (read_loop fuel c ≡ some out) × (read_loop more c ≡ some out)
unfolding read_loop
loop_answers zero more c h k = absurd (omega arith)
loop_answers (suc fuel) zero c h k = absurd (omega arith)
loop_answers (suc fuel) (suc more) c h k = elim (Round-cases (round c).0) [
  | inl q ↦
      let less : length (round c).1.input < fuel = omega (arith, round-lt c q) in
      let less' : length (round c).1.input < more = omega (arith, round-lt c q) in
      let (out, e, e') = loop_answers fuel more (round c).1 less less' in
      (out, read_loop-again fuel c q ∙ e, read_loop-again more c q ∙ e')
  | inr (e, q) ↦ ((e, (round c).1), read_loop-ended fuel e c q, read_loop-ended more e c q)
]

-- ReadMessage ends on every input, with its results or with a panic of make: with any fuel above the
-- number of bytes that wait the loop ends, and how it ends does not depend on the fuel.
pub read_message_ends :
    (c : Conn) (fuel : ℕ)
    → length c.input < fuel
    → (out : Ending × Conn) × (read_message c ≡ some out) × (read_loop fuel c ≡ some out)
unfolding read_message
read_message_ends c fuel h = loop_answers (suc (length c.input)) fuel c (omega arith) h

-- A round that goes on is followed by the whole reading of what is left.
pub read_message-again :
    (c : Conn) → (round c).0 ≡ again → read_message c ≡ read_message (round c).1
unfolding read_message
read_message-again c q =
    let less : length (round c).1.input < length c.input = round-lt c q in
    let (out, e1, e2) =
      loop_answers (length c.input) (suc (length (round c).1.input)) (round c).1 less
        (omega arith) in
    read_loop-again (length c.input) c q ∙ e1 ∙ sym e2
