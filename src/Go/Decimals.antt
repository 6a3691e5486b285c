-- ===== src/Go/Decimals.antt =====
-- A number is read back from its decimals: strconv.ParseInt after strconv.FormatInt.
use Prim.Native.Char.{Char, code}
use Prim.Native.String.{[], ◌∷◌, ◌++◌}
use text.Mathlib.TextLemmas.{nil-append, cons-append, cons≢nil, append-ne-nil_of_right_ne-nil}
use drive_power.Prelude.{
  ℕ, zero, suc, pos, ◌+◌, ◌-◌, ◌*◌, ◌/◌, ◌%◌, ◌^◌, ◌<◌, ◌≡◌, ◌≢◌, refl, sym, ap, ◌∙◌, arith, String,
  Bool, true, false, Option, none, some, ltb, eqb, eqb_iff, string_eq, check_all, check_all_sound,
  Bool-cases, inl, inr,
}
use drive_power.Go.Errors.{ok}
use drive_power.Go.Strconv.{
  digit, decimal, digits_from, digits_of, is_digit, positive, parse_int, format_nat,
}

-- A text of one character, a digit of the given value.
record IsDigit (d : ℕ) (s : String) : Type 0 where
  pub char : Char
  pub text : s ≡ char ∷ ""
  pub value : code char ≡ 48 + d

one_char : ℕ → String → Bool
one_char n [] = false
one_char n (ch ∷ []) = eqb (code ch) n
one_char n (ch ∷ d ∷ rest) = false

one_char_sound : (d : ℕ) (s : String) → one_char (48 + d) s ≡ true → IsDigit d s
unfolding one_char
one_char_sound d [] h = absurd (ground (arith, h))
one_char_sound d (ch ∷ []) h = record {
  char = ch;
  text = refl;
  value = (eqb_iff (code ch) (48 + d)).0 h;
}
one_char_sound d (ch ∷ c ∷ rest) h = absurd (ground (arith, h))

digit_table : check_all 10 (λ d. one_char (48 + d) (digit d)) ≡ true
unfolding check_all one_char digit
digit_table = refl

digit-IsDigit : (d : ℕ) → d < 10 → IsDigit d (digit d)
digit-IsDigit d h =
    one_char_sound d (digit d)
      (check_all_sound 10 (λ k. one_char (48 + k) (digit k)) d digit_table h)

-- Digits followed by one more.
then_digit : ℕ → Option ℕ → Option ℕ
then_digit d none = none
then_digit d (some n) = some (n * 10 + d)

digits_from-digit :
    (n d : ℕ) (s t : String)
    → d < 10
    → IsDigit d t
    → digits_from n (s ++ t) ≡ then_digit d (digits_from n s)
unfolding digits_from is_digit then_digit
digits_from-digit n d [] t h k = rw (nil-append t, k.text) (ground (arith, k.value))
digits_from-digit n d (ch ∷ s) t h k =
    rw (cons-append ch s t) (ground (arith, digits_from-digit (n * 10 + (code ch - 48)) d s t h k))

digits_from-one :
    (n d : ℕ) (t : String) → d < 10 → IsDigit d t → digits_from n t ≡ some (n * 10 + d)
unfolding digits_from is_digit
digits_from-one n d t h k = rw (k.text) (ground (arith, k.value))

-- As many rounds as the number itself, and one, give all its digits.
decimal-digits : (fuel n : ℕ) → n < fuel → digits_from 0 (decimal fuel n) ≡ some n
unfolding decimal then_digit
decimal-digits zero n h = absurd (omega arith)
decimal-digits (suc fuel) n h = elim (Bool-cases (ltb n 10)) [
  | inl e ↦ rw e (
      digits_from-one 0 n (digit n) (ground (arith, e)) (digit-IsDigit n (ground (arith, e)))
      ∙ ap (λ (m : ℕ). some m) (omega arith))
  | inr e ↦ rw e (
      digits_from-digit 0 (n % 10) (decimal fuel (n / 10)) (digit (n % 10)) (omega arith)
        (digit-IsDigit (n % 10) (omega arith))
      ∙ ap (then_digit (n % 10)) (decimal-digits fuel (n / 10) (ground (arith, e)))
      ∙ ap (λ (m : ℕ). some m) (omega arith))
]

digit-ne : (d : ℕ) → d < 10 → digit d ≢ ""
digit-ne d h e = cons≢nil (sym ((digit-IsDigit d h).text) ∙ e)

decimal-ne : (fuel n : ℕ) → decimal (suc fuel) n ≢ ""
unfolding decimal
decimal-ne fuel n = elim (Bool-cases (ltb n 10)) [
  | inl e ↦ rw e (digit-ne n (ground (arith, e)))
  | inr e ↦
      rw e (append-ne-nil_of_right_ne-nil (decimal fuel (n / 10)) (digit-ne (n % 10) (omega arith)))
]

parse_int-digits :
    (s : String) (n : ℕ) → s ≢ "" → digits_from 0 s ≡ some n → n < 2 ^ 63 → parse_int s ≡ ok (pos n)
unfolding parse_int digits_of digits_from is_digit positive
parse_int-digits [] n h q small = absurd (h refl)
parse_int-digits (ch ∷ rest) n h q small = ground (arith, q)

-- A number below 2 ^ 63, written in decimals, is read back by ParseInt.
pub parse_int-format_nat : (n : ℕ) → n < 2 ^ 63 → parse_int (format_nat n) ≡ ok (pos n)
unfolding format_nat
parse_int-format_nat n small =
    parse_int-digits (decimal (suc n) n) n (decimal-ne n n) (decimal-digits (suc n) n (omega arith))
      small

pub format_nat-ne : (n : ℕ) → format_nat n ≢ ""
unfolding format_nat
format_nat-ne n = decimal-ne n n
