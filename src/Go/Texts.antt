-- ===== src/Go/Texts.antt =====
-- The functions of the package strings that the services use. A text is a list of code points; a
-- letter outside ASCII stands for itself in `to_lower` and `to_upper`.
use Prim.Native.Char.{Char, code}
use Prim.Native.String.{[], ◌∷◌, ◌++◌, slice}
use drive_power.Prelude.{
  ℕ, ◌+◌, ◌-◌, ◌≡◌, refl, ap, arith, String, Bool, true, false, ◌||◌, ◌&&◌, List, Option, none,
  some, eqb, leb, if◌then◌else◌, string_eq,
}
use text.Mathlib.TextLemmas.{nil-append, cons-append}
use mathlib.Core.List.{[] as no_texts, ◌∷◌ as more}

-- unicode.IsSpace
unfoldable pub is_space : ℕ → Bool
is_space c =
    (leb 9 c && leb c 13)
    || eqb c 32
    || eqb c 0x85
    || eqb c 0xA0
    || eqb c 0x1680
    || (leb 0x2000 c && leb c 0x200A)
    || eqb c 0x2028
    || eqb c 0x2029
    || eqb c 0x202F
    || eqb c 0x205F
    || eqb c 0x3000

-- strings.TrimLeftFunc and TrimRightFunc
unfoldable pub trim_left : (ℕ → Bool) → String → String
trim_left p [] = ""
trim_left p (ch ∷ rest) =
    let trimmed = trim_left p rest in if p (code ch) then trimmed else ch ∷ rest

keep_unless : Bool → Char → String → String
keep_unless drop ch [] = if drop then "" else ch ∷ ""
keep_unless drop ch (d ∷ rest) = ch ∷ d ∷ rest

unfoldable pub trim_right : (ℕ → Bool) → String → String
unfolding keep_unless
trim_right p [] = ""
trim_right p (ch ∷ rest) = keep_unless (p (code ch)) ch (trim_right p rest)

unfoldable pub trim_space : String → String
trim_space s = trim_right is_space (trim_left is_space s)

is_slash : ℕ → Bool
is_slash c = eqb c b'/'

-- strings.TrimRight(s, "/") and strings.Trim(s, "/")
unfoldable pub trim_right_slashes : String → String
unfolding is_slash
trim_right_slashes s = trim_right is_slash s

unfoldable pub trim_slashes : String → String
unfolding is_slash
trim_slashes s = trim_right is_slash (trim_left is_slash s)

unfoldable pub is_upper : ℕ → Bool
is_upper c = leb b'A' c && leb c b'Z'

lower_letter : ℕ → String
lower_letter n = slice "abcdefghijklmnopqrstuvwxyz" n (n + 1)

-- strings.ToLower
unfoldable pub to_lower : String → String
unfolding is_upper lower_letter
to_lower [] = ""
to_lower (ch ∷ rest) =
    (if is_upper (code ch) then lower_letter (code ch - b'A') else ch ∷ "") ++ to_lower rest

unfoldable pub is_lower : ℕ → Bool
is_lower c = leb b'a' c && leb c b'z'

upper_letter : ℕ → String
upper_letter n = slice "ABCDEFGHIJKLMNOPQRSTUVWXYZ" n (n + 1)

-- strings.ToUpper
unfoldable pub to_upper : String → String
unfolding is_lower upper_letter
to_upper [] = ""
to_upper (ch ∷ rest) =
    (if is_lower (code ch) then upper_letter (code ch - b'a') else ch ∷ "") ++ to_upper rest

-- strings.ReplaceAll(s, "-", "_")
unfoldable pub dashes_replaced : String → String
dashes_replaced [] = ""
dashes_replaced (ch ∷ rest) = (if eqb (code ch) b'-' then "_" else ch ∷ "") ++ dashes_replaced rest

-- A code point, as strings.EqualFold compares it with a letter of ASCII: beside the other case of a
-- letter, the Kelvin sign counts as a k and the long s as an s.
unfoldable pub fold_case : ℕ → ℕ
unfolding is_upper
fold_case c =
    if is_upper c then c + 32 else if eqb c 0x212A then b'k' else if eqb c 0x17F then b's' else c

-- strings.EqualFold, of a text and a text in ASCII
unfoldable pub equal_fold : String → String → Bool
unfolding fold_case
equal_fold [] [] = true
equal_fold [] (d ∷ t) = false
equal_fold (c ∷ s) [] = false
equal_fold (c ∷ s) (d ∷ t) = eqb (fold_case (code c)) (fold_case (code d)) && equal_fold s t

to_head : Char → List String → List String
to_head ch no_texts = more (ch ∷ "") no_texts
to_head ch (more s rest) = more (ch ∷ s) rest

-- strings.Split, at a code point
unfoldable pub split_at : ℕ → String → List String
unfolding to_head
split_at c [] = more "" no_texts
split_at c (ch ∷ s) =
    let rest = split_at c s in if eqb (code ch) c then more "" rest else to_head ch rest

unfoldable pub then_first : Char → Option (String × String) → Option (String × String)
then_first ch none = none
then_first ch (some (before, after)) = some (ch ∷ before, after)

-- strings.SplitN(s, " ", 2): the two parts, where there is a space
unfoldable pub split_first_space : String → Option (String × String)
unfolding then_first
split_first_space [] = none
split_first_space (ch ∷ s) =
    let rest = split_first_space s in
    if eqb (code ch) b' ' then some ("", s) else then_first ch rest

-- strings.TrimPrefix, and what is left behind a prefix
unfoldable pub without_prefix : String → String → Option String
without_prefix [] s = some s
without_prefix (c ∷ p) [] = none
without_prefix (c ∷ p) (d ∷ s) =
    let rest = without_prefix p s in if eqb (code c) (code d) then rest else none

unfoldable pub trim_prefix : String → String → String
trim_prefix s p = elim (without_prefix p s) [ none ↦ s | some rest ↦ rest ]

-- strings.HasPrefix
unfoldable pub has_prefix : String → String → Bool
has_prefix s p = elim (without_prefix p s) [ none ↦ false | some rest ↦ true ]

text_examples :
    (trim_space "\t a b\n" ≡ "a b")
    × (to_lower "Ann@Example.ORG" ≡ "ann@example.org")
    × (equal_fold "BEARER" "Bearer" ≡ true)
    × (split_at b',' "a,,b" ≡ more "a" (more "" (more "b" no_texts)))
    × (split_first_space "Bearer a b" ≡ some ("Bearer", "a b"))
    × (trim_slashes "/a/b//" ≡ "a/b")
    × (trim_prefix "/ocpp/7" "/ocpp/" ≡ "7")
unfolding trim_space is_space trim_left trim_right to_lower equal_fold split_at split_first_space
    trim_slashes trim_prefix without_prefix
text_examples = (refl, refl, refl, refl, refl, refl, refl)

-- What stands behind a prefix is found.
pub without_prefix-append : (p s : String) → without_prefix p (p ++ s) ≡ some s
unfolding without_prefix
without_prefix-append [] s = ap some (nil-append s)
without_prefix-append (c ∷ p) s = rw (cons-append c p s) (ground (arith, without_prefix-append p s))
