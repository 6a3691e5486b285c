-- ===== src/Go/Strconv.antt =====
-- strconv.ParseInt(s, 10, 64), and numbers in decimal as fmt writes them.
use Prim.Native.Char.{code}
use Prim.Native.String.{[], ◌∷◌, ◌++◌, slice}
use drive_power.Prelude.{
  ℕ, suc, ℤ, pos, negsuc, ◌+◌, ◌-◌, ◌*◌, ◌/◌, ◌%◌, zero, ◌^◌, ◌≡◌, refl, String, Bool, ◌&&◌, Option,
  none, some, leb, ltb, eqb, if◌then◌else◌,
}
use drive_power.Go.Errors.{Result, ok, err, message}

unfoldable pub is_digit : ℕ → Bool
is_digit c = leb b'0' c && leb c b'9'

-- The value of the digits of a text after those that gave `n`.
unfoldable pub digits_from : ℕ → String → Option ℕ
unfolding is_digit
digits_from n [] = some n
digits_from n (ch ∷ rest) =
    let c = code ch in
    let more = digits_from (n * 10 + (c - b'0')) rest in if is_digit c then more else none

unfoldable pub digits_of : String → Option ℕ
unfolding digits_from
digits_of [] = none
digits_of (ch ∷ rest) = digits_from 0 (ch ∷ rest)

unfoldable pub positive : Option ℕ → Result ℤ
positive none = err (message "invalid syntax")
positive (some n) = if ltb n (2 ^ 63) then ok (pos n) else err (message "value out of range")

negative : Option ℕ → Result ℤ
negative none = err (message "invalid syntax")
negative (some n) =
    if eqb n 0
    then ok (pos 0)
    else if leb n (2 ^ 63)
    then ok (negsuc (n - 1))
    else err (message "value out of range")

unfoldable pub parse_int : String → Result ℤ
unfolding digits_of positive negative
parse_int [] = err (message "invalid syntax")
parse_int (ch ∷ rest) =
    if eqb (code ch) b'-'
    then negative (digits_of rest)
    else if eqb (code ch) b'+'
    then positive (digits_of rest)
    else positive (digits_of (ch ∷ rest))

parse_int_examples :
    (parse_int "42" ≡ ok (pos 42))
    × (parse_int "-7" ≡ ok (negsuc 6))
    × (parse_int "9223372036854775808" ≡ err (message "value out of range"))
    × (parse_int "1x" ≡ err (message "invalid syntax"))
unfolding parse_int
parse_int_examples = (refl, refl, refl, refl)

unfoldable pub digit : ℕ → String
digit d = slice "0123456789" d (d + 1)

-- Each round takes a digit off, so as many rounds as the number itself, and one, are enough.
unfoldable pub decimal : ℕ → ℕ → String
unfolding digit
decimal zero n = ""
decimal (suc fuel) n =
    let front = decimal fuel (n / 10) in if ltb n 10 then digit n else front ++ digit (n % 10)

unfoldable pub format_nat : ℕ → String
unfolding decimal
format_nat n = decimal (suc n) n

format_nat_examples :
    (format_nat 0 ≡ "0") × (format_nat 1700000000123456789 ≡ "1700000000123456789")
unfolding format_nat
format_nat_examples = (refl, refl)
