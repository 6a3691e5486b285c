-- ===== src/Go/Digests.antt =====
-- The bytes of a text, crypto/sha1 and base64.StdEncoding, so far as csms/internal/ws uses them. A word
-- is a number below 2 ^ 32.
use Prim.Native.Char.{code}
use Prim.Native.Nat.{bit_and, bit_or, bit_xor}
use Prim.Native.String.{◌++◌ as append, [] as no_text, ◌∷◌ as then_char, slice}
use drive_power.Prelude.{
  ℕ, zero, suc, ◌+◌, ◌-◌, ◌*◌, ◌/◌, ◌%◌, ◌^◌, ◌≡◌, refl, String, List, [], ◌∷◌, ◌++◌, length, ltb,
  eqb, true, false, if◌then◌else◌,
}

-- []byte(s): UTF-8
unfoldable pub utf8_char : ℕ → List ℕ
utf8_char c =
    if ltb c 0x80
    then c ∷ []
    else if ltb c 0x800
    then (0xC0 + c / 64) ∷ (0x80 + c % 64) ∷ []
    else if ltb c 0x10000
    then (0xE0 + c / 4096) ∷ (0x80 + c / 64 % 64) ∷ (0x80 + c % 64) ∷ []
    else (0xF0 + c / 262144) ∷ (0x80 + c / 4096 % 64) ∷ (0x80 + c / 64 % 64) ∷ (0x80 + c % 64) ∷ []

unfoldable pub bytes_of : String → List ℕ
bytes_of no_text = []
bytes_of (then_char ch rest) = utf8_char (code ch) ++ bytes_of rest

word : ℕ
word = 2 ^ 32

rotate_left : ℕ → ℕ → ℕ
unfolding word
rotate_left n x = x * 2 ^ n % word + x / 2 ^ (32 - n)

record State : Type 0 where
  pub a : ℕ
  pub b : ℕ
  pub c : ℕ
  pub d : ℕ
  pub e : ℕ

start : State
start = record { a = 0x67452301; b = 0xEFCDAB89; c = 0x98BADCFE; d = 0x10325476; e = 0xC3D2E1F0 }

-- The function and the constant of a round.
mix : ℕ → State → ℕ
mix t s =
    if ltb t 20
    then bit_or (bit_and s.b s.c) (bit_and (bit_xor s.b 0xFFFFFFFF) s.d) + 0x5A827999
    else if ltb t 40
    then bit_xor (bit_xor s.b s.c) s.d + 0x6ED9EBA1
    else if ltb t 60
    then bit_or (bit_or (bit_and s.b s.c) (bit_and s.b s.d)) (bit_and s.c s.d) + 0x8F1BBCDC
    else bit_xor (bit_xor s.b s.c) s.d + 0xCA62C1D6

sha_round : ℕ → ℕ → State → State
unfolding mix rotate_left word
sha_round t w s = record {
  a = (rotate_left 5 s.a + mix t s + s.e + w) % word;
  b = s.a;
  c = rotate_left 30 s.b;
  d = s.c;
  e = s.d;
}

sha_rounds : ℕ → List ℕ → State → State
unfolding sha_round
sha_rounds t [] s = s
sha_rounds t (w ∷ ws) s = sha_rounds (t + 1) ws (sha_round t w s)

word_at : ℕ → List ℕ → ℕ
word_at n [] = 0
word_at zero (w ∷ ws) = w
word_at (suc n) (w ∷ ws) = word_at n ws

-- The message schedule, the newest word first.
schedule : ℕ → List ℕ → List ℕ
unfolding word_at rotate_left
schedule zero ws = ws
schedule (suc n) ws = schedule n (
    rotate_left 1
      (bit_xor (bit_xor (word_at 2 ws) (word_at 7 ws)) (bit_xor (word_at 13 ws) (word_at 15 ws)))
    ∷ ws)

reversed_onto : List ℕ → List ℕ → List ℕ
reversed_onto done [] = done
reversed_onto done (w ∷ ws) = reversed_onto (w ∷ done) ws

sum_states : State → State → State
unfolding word
sum_states s t = record {
  a = (s.a + t.a) % word;
  b = (s.b + t.b) % word;
  c = (s.c + t.c) % word;
  d = (s.d + t.d) % word;
  e = (s.e + t.e) % word;
}

-- A block of sixteen words, the last of which comes first.
sha_block : List ℕ → State → State
unfolding sum_states sha_rounds reversed_onto schedule
sha_block ws s = sum_states s (sha_rounds 0 (reversed_onto [] (schedule 64 ws)) s)

-- The words that the bytes give, in blocks; `ws` are the words of the block so far, the last one first.
sha_words : List ℕ → List ℕ → State → State
unfolding sha_block
sha_words ws (b0 ∷ b1 ∷ b2 ∷ b3 ∷ rest) s =
    let ws' = (((b0 * 256 + b1) * 256 + b2) * 256 + b3) ∷ ws in
    elim (eqb (length ws') 16) [
      | true ↦ sha_words [] rest (sha_block ws' s)
      | false ↦ sha_words ws' rest s
    ]
sha_words ws _ s = s

zeros : ℕ → List ℕ
zeros zero = []
zeros (suc n) = 0 ∷ zeros n

last_bytes : ℕ → ℕ → List ℕ
last_bytes zero n = []
last_bytes (suc k) n = last_bytes k (n / 256) ++ (n % 256 ∷ [])

-- A one bit, zeros up to a block less eight bytes, and the length in bits.
padded : List ℕ → List ℕ
unfolding zeros last_bytes
padded bytes =
    let n = length bytes in bytes ++ (0x80 ∷ (zeros ((119 - n % 64) % 64) ++ last_bytes 8 (8 * n)))

-- sha1.Sum
unfoldable pub sha1 : List ℕ → List ℕ
unfolding padded sha_words last_bytes start
sha1 bytes =
    let s = sha_words [] (padded bytes) start in
    last_bytes 4 s.a
    ++ (last_bytes 4 s.b ++ (last_bytes 4 s.c ++ (last_bytes 4 s.d ++ last_bytes 4 s.e)))

letter : ℕ → String
letter n = slice "ABCDEFGHIJKLMNOPQRSTUVWXYZabcdefghijklmnopqrstuvwxyz0123456789+/" n (n + 1)

-- base64.StdEncoding.EncodeToString
unfoldable pub base64 : List ℕ → String
unfolding letter
base64 (x ∷ y ∷ z ∷ rest) = append (letter (x / 4)) (
    append (letter (x % 4 * 16 + y / 16))
      (append (letter (y % 16 * 4 + z / 64)) (append (letter (z % 64)) (base64 rest))))
base64 (x ∷ y ∷ []) =
    append (letter (x / 4))
      (append (letter (x % 4 * 16 + y / 16)) (append (letter (y % 16 * 4)) "="))
base64 (x ∷ []) = append (letter (x / 4)) (append (letter (x % 4 * 16)) "==")
base64 [] = ""

-- The digest of the empty text, and the example of RFC 6455.
sha1_empty : base64 (sha1 []) ≡ "2jmj7l5rSw0yVb/vlWAYkK/YBwk="
unfolding base64 sha1
sha1_empty = refl

sha1_of_key :
    base64 (sha1 (bytes_of "dGhlIHNhbXBsZSBub25jZQ==258EAFA5-E914-47DA-95CA-C5AB0DC85B11"))
    ≡ "s3pPLMBiTxaQ9kYGzzhZRbK+xOo="
unfolding base64 sha1 bytes_of utf8_char
sha1_of_key = refl
