-- ===== src/Csms/ClientFrames.antt =====
-- A frame as a client sends it by RFC 6455, and what ReadMessage (csms/internal/ws/simple.go) makes
-- of it.
use drive_power.Prelude.{
  ℕ, zero, suc, ◌+◌, ◌%◌, ◌^◌, ◌<◌, ◌≤◌, false, ◌≡◌, refl, sym, List, [], ◌∷◌, ◌++◌, length, take,
  drop, All, ltb, arith, if◌then◌else◌, length-append,
}
use Prim.Native.Nat.{bit_and, bit_xor}
use drive_power.Csms.Bytes.{
  IsByte, put_big_endian, big_endian-put, length-put_big_endian, bit_xor_twice, flag_bits,
  opcode_bits,
}
use drive_power.Csms.Conn.{
  Conn, got, read_byte, read_full, read_length, read_frame, unmask_from, byte_at,
}

-- The second byte of a frame with its mask bit, and the extended length behind it.
unfoldable pub size_byte : ℕ → ℕ
size_byte n = if ltb n 126 then 128 + n else if ltb n 65536 then 254 else 255

unfoldable pub extended_size : ℕ → List ℕ
extended_size n =
    if ltb n 126 then [] else if ltb n 65536 then put_big_endian 2 n else put_big_endian 8 n

-- The masking of RFC 6455, 5.3: each byte with the byte of the key that its turn is, the key's first
-- byte again after its fourth.
unfoldable pub masked : ℕ → ℕ → ℕ → ℕ → List ℕ → List ℕ
masked k0 k1 k2 k3 [] = []
masked k0 k1 k2 k3 (b ∷ bs) = bit_xor b k0 ∷ masked k1 k2 k3 k0 bs

-- A key of four bytes.
abbrev pub under : List ℕ → List ℕ → List ℕ
under (k0 ∷ k1 ∷ k2 ∷ k3 ∷ []) payload = masked k0 k1 k2 k3 payload
under _ payload = payload

unfoldable pub client_frame : ℕ → List ℕ → List ℕ → List ℕ
client_frame opcode mask payload =
    (128 + opcode)
    ∷ size_byte (length payload)
    ∷ (extended_size (length payload) ++ (mask ++ under mask payload))

pub record IsMask (mask : List ℕ) : Type 0 where
  pub four : length mask ≡ 4
  pub bytes : All IsByte mask

-- The connection with other input.
abbrev pub waiting : Conn → List ℕ → Conn
waiting c bytes = record c { input = bytes }

byte_at-IsByte : (i : ℕ) (mask : List ℕ) → All IsByte mask → IsByte (byte_at i mask)
byte_at-IsByte i [] h = omega arith
byte_at-IsByte zero (b ∷ bs) (h, _) = h
byte_at-IsByte (suc i) (b ∷ bs) (_, hs) = byte_at-IsByte i bs hs

length-unmask_from :
    (i : ℕ) (mask payload : List ℕ) → length (unmask_from i mask payload) ≡ length payload
unfolding unmask_from
length-unmask_from i mask [] = refl
length-unmask_from i mask (b ∷ bs) = omega (arith, length-unmask_from (i + 1) mask bs)

unmask_twice :
    (i : ℕ) (mask payload : List ℕ)
    → All IsByte mask
    → All IsByte payload
    → unmask_from i mask (unmask_from i mask payload) ≡ payload
unfolding unmask_from
unmask_twice i mask [] h k = refl
unmask_twice i mask (b ∷ bs) h (k, ks) =
    rw
      (
        bit_xor_twice (byte_at (i % 4) mask) b (byte_at-IsByte (i % 4) mask h) k,
        unmask_twice (i + 1) mask bs h ks,
      )
      refl

-- From an index on, the key has turned by its remainder.
unmask_turns :
    (k0 k1 k2 k3 : ℕ) (payload : List ℕ) (i : ℕ)
    → (let mask = k0 ∷ k1 ∷ k2 ∷ k3 ∷ [] in
        (i % 4 ≡ 0 → unmask_from i mask payload ≡ masked k0 k1 k2 k3 payload)
        × (i % 4 ≡ 1 → unmask_from i mask payload ≡ masked k1 k2 k3 k0 payload)
        × (i % 4 ≡ 2 → unmask_from i mask payload ≡ masked k2 k3 k0 k1 payload)
        × (i % 4 ≡ 3 → unmask_from i mask payload ≡ masked k3 k0 k1 k2 payload))
unfolding unmask_from masked
unmask_turns k0 k1 k2 k3 [] i = (λ h. refl, λ h. refl, λ h. refl, λ h. refl)
unmask_turns k0 k1 k2 k3 (b ∷ bs) i =
    let (t0, t1, t2, t3) = unmask_turns k0 k1 k2 k3 bs (i + 1) in
    (
      λ h. rw (h, t1 (omega (arith, h))) refl,
      λ h. rw (h, t2 (omega (arith, h))) refl,
      λ h. rw (h, t3 (omega (arith, h))) refl,
      λ h. rw (h, t0 (omega (arith, h))) refl,
    )

unmask_from-under :
    (mask payload : List ℕ) → length mask ≡ 4 → unmask_from 0 mask payload ≡ under mask payload
unmask_from-under (k0 ∷ k1 ∷ k2 ∷ k3 ∷ []) payload h = (unmask_turns k0 k1 k2 k3 payload 0).0 refl
unmask_from-under [] payload h = absurd (omega (arith, h))
unmask_from-under (a ∷ []) payload h = absurd (omega (arith, h))
unmask_from-under (a ∷ b ∷ []) payload h = absurd (omega (arith, h))
unmask_from-under (a ∷ b ∷ c ∷ []) payload h = absurd (omega (arith, h))
unmask_from-under (a ∷ b ∷ c ∷ d ∷ e ∷ rest) payload h = absurd (omega (arith, h))

length-under :
    (mask payload : List ℕ) → length mask ≡ 4 → length (under mask payload) ≡ length payload
length-under mask payload h =
    rw (sym (unmask_from-under mask payload h)) (length-unmask_from 0 mask payload)

unmask-under :
    (mask payload : List ℕ)
    → length mask ≡ 4
    → All IsByte mask
    → All IsByte payload
    → unmask_from 0 mask (under mask payload) ≡ payload
unmask-under mask payload h k bytes =
    rw (sym (unmask_from-under mask payload h)) (unmask_twice 0 mask payload k bytes)

pub take_prefix : (xs rest : List ℕ) → take (length xs) (xs ++ rest) ≡ xs
take_prefix [] rest = refl
take_prefix (x ∷ xs) rest = rw (take_prefix xs rest) refl

pub drop_prefix : (xs rest : List ℕ) → drop (length xs) (xs ++ rest) ≡ rest
drop_prefix [] rest = refl
drop_prefix (x ∷ xs) rest = drop_prefix xs rest

pub read_full_prefix :
    (n : ℕ) (xs rest : List ℕ) (c : Conn)
    → length xs ≡ n
    → read_full n (waiting c (xs ++ rest)) ≡ (got xs, waiting c rest)
unfolding read_full
read_full_prefix n xs rest c e =
    rw (← e) (ground (arith, take_prefix xs rest, drop_prefix xs rest, length-append xs rest))

pub read_length-size :
    (n : ℕ) (rest : List ℕ) (c : Conn)
    → n < 2 ^ 63
    → read_length (size_byte n) (waiting c (extended_size n ++ rest)) ≡ (got n, waiting c rest)
unfolding read_length size_byte extended_size
read_length-size n rest c h = ground (
  arith,
  read_full_prefix 2 (put_big_endian 2 n) rest c (length-put_big_endian 2 n),
  read_full_prefix 8 (put_big_endian 8 n) rest c (length-put_big_endian 8 n),
  λ (k : n < 256 ^ 2). big_endian-put 2 n k,
  big_endian-put 8 n (omega arith),
  λ (k : n < 128). flag_bits n k,
)

pub size_byte-masked : (n : ℕ) → bit_and (size_byte n) 0x80 ≡ 128
unfolding size_byte
size_byte-masked n = ground (arith, λ (k : n < 128). flag_bits n k)

pub append_assoc : (xs ys zs : List ℕ) → (xs ++ ys) ++ zs ≡ xs ++ (ys ++ zs)
append_assoc [] ys zs = refl
append_assoc (x ∷ xs) ys zs = rw (append_assoc xs ys zs) refl

client_frame-append :
    (opcode : ℕ) (mask payload rest : List ℕ)
    → client_frame opcode mask payload ++ rest
      ≡ (128 + opcode)
        ∷ size_byte (length payload)
        ∷ (extended_size (length payload) ++ (mask ++ (under mask payload ++ rest)))
unfolding client_frame
client_frame-append opcode mask payload rest =
    let body = under mask payload in
    rw
      (
        append_assoc (extended_size (length payload)) (mask ++ body) rest,
        append_assoc mask body rest,
      )
      refl

ltb-false : (n k : ℕ) → n ≤ k → ltb k n ≡ false
ltb-false n k h = ground (arith, h)

-- ReadMessage takes such a frame off the input, and finds its opcode and payload.
pub read_frame-client_frame :
    (opcode : ℕ) (mask payload rest : List ℕ) (c : Conn)
    → opcode < 16
    → IsMask mask
    → All IsByte payload
    → length payload < 2 ^ 63
    → length payload ≤ c.largest
    → read_frame (waiting c (client_frame opcode mask payload ++ rest))
      ≡ (got (opcode, payload), waiting c rest)
unfolding read_frame read_byte
read_frame-client_frame opcode mask payload rest c small h bytes short fits =
    let n = length payload in
    let body = under mask payload in
    rw
      (
        client_frame-append opcode mask payload rest,
        size_byte-masked n,
        read_length-size n (mask ++ (body ++ rest)) c short,
        read_full_prefix 4 mask (body ++ rest) c h.four,
        ltb-false n c.largest fits,
        read_full_prefix n body rest c (length-under mask payload h.four),
        (flag_bits opcode (omega arith)).1,
        (opcode_bits opcode small).0,
        unmask-under mask payload h.four h.bytes bytes,
      )
      refl
