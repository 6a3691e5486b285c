-- ===== src/Csms/Bytes.antt =====
-- Bytes, the numbers of encoding/binary in big-endian order, and the bit operations of
-- csms/internal/ws/simple.go on bytes. A byte is a number below 256.
use Prim.Native.Nat.{bit_and, bit_or, bit_xor}
use drive_power.Prelude.{
  ℕ, zero, suc, ◌+◌, ◌*◌, ◌/◌, ◌%◌, ◌^◌, ◌<◌, ◌≡◌, refl, Bool, true, ◌&&◌, List, [], ◌∷◌, ◌++◌,
  arith, length, length-append, check_all, check_all_sound, eqb, eqb_iff, ltb,
}

abbrev pub IsByte : ℕ → Type 0
IsByte b = b < 256

-- binary.BigEndian.Uint16 and Uint64, of as many bytes as are given, after the value `n`.
unfoldable pub big_endian_from : ℕ → List ℕ → ℕ
big_endian_from n [] = n
big_endian_from n (b ∷ bs) = big_endian_from (n * 256 + b) bs

-- binary.BigEndian.PutUint16 and PutUint64: the last k bytes of a number.
unfoldable pub put_big_endian : ℕ → ℕ → List ℕ
put_big_endian zero n = []
put_big_endian (suc k) n = put_big_endian k (n / 256) ++ (n % 256) ∷ []

big_endian_from-append :
    (n b : ℕ) (bs : List ℕ) → big_endian_from n (bs ++ b ∷ []) ≡ big_endian_from n bs * 256 + b
unfolding big_endian_from
big_endian_from-append n b [] = refl
big_endian_from-append n b (c ∷ bs) = big_endian_from-append (n * 256 + c) b bs

pub length-put_big_endian : (k n : ℕ) → length (put_big_endian k n) ≡ k
unfolding put_big_endian
length-put_big_endian zero n = refl
length-put_big_endian (suc k) n = omega (
  arith,
  length-append (put_big_endian k (n / 256)) (n % 256 ∷ []),
  length-put_big_endian k (n / 256),
)

-- A number that fits into k bytes is read back from them.
pub big_endian-put : (k n : ℕ) → n < 256 ^ k → big_endian_from 0 (put_big_endian k n) ≡ n
unfolding big_endian_from put_big_endian
big_endian-put zero n h = omega arith
big_endian-put (suc k) n h =
    let small : n / 256 < 256 ^ k = grind arith in
    omega (
      arith,
      big_endian_from-append 0 (n % 256) (put_big_endian k (n / 256)),
      big_endian-put k (n / 256) small,
    )

-- Every pair of bytes: masking twice gives the byte back, and gives bytes.
xor_test : ℕ → ℕ → Bool
xor_test m x = eqb (bit_xor (bit_xor x m) m) x && ltb (bit_xor x m) 256

xor_table : check_all 256 (λ m. check_all 256 (xor_test m)) ≡ true
unfolding check_all xor_test
xor_table = refl

pub bit_xor_twice : (m x : ℕ) → m < 256 → x < 256 → bit_xor (bit_xor x m) m ≡ x
unfolding xor_test
bit_xor_twice m x h k =
    let row = check_all_sound 256 (λ m. check_all 256 (xor_test m)) m xor_table h in
    let cell = check_all_sound 256 (xor_test m) x row k in
    ground (arith, cell, eqb_iff (bit_xor (bit_xor x m) m) x)

pub bit_xor-IsByte : (m x : ℕ) → m < 256 → x < 256 → bit_xor x m < 256
unfolding xor_test
bit_xor-IsByte m x h k =
    let row = check_all_sound 256 (λ m. check_all 256 (xor_test m)) m xor_table h in
    let cell = check_all_sound 256 (xor_test m) x row k in ground (arith, cell)

-- The bits of a first and of a second byte of a frame.
flag_test : ℕ → Bool
flag_test n = eqb (bit_and (128 + n) 0x7F) n && eqb (bit_and (128 + n) 0x80) 128

flag_table : check_all 128 flag_test ≡ true
unfolding check_all flag_test
flag_table = refl

pub flag_bits : (n : ℕ) → n < 128 → (bit_and (128 + n) 0x7F ≡ n) × (bit_and (128 + n) 0x80 ≡ 128)
unfolding flag_test
flag_bits n h =
    ground (arith, check_all_sound 128 flag_test n flag_table h, eqb_iff (bit_and (128 + n) 0x7F) n)

opcode_test : ℕ → Bool
opcode_test n = eqb (bit_and (128 + n) 0x0F) n && eqb (bit_or 0x80 n) (128 + n)

opcode_table : check_all 16 opcode_test ≡ true
unfolding check_all opcode_test
opcode_table = refl

pub opcode_bits : (n : ℕ) → n < 16 → (bit_and (128 + n) 0x0F ≡ n) × (bit_or 0x80 n ≡ 128 + n)
unfolding opcode_test
opcode_bits n h =
    ground
      (arith, check_all_sound 16 opcode_test n opcode_table h, eqb_iff (bit_and (128 + n) 0x0F) n)
