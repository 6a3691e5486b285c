-- ===== src/Go/Jwts.antt =====
-- What the services take of golang-jwt: tokens are signed and parsed by the library, a parameter here.
use drive_power.Prelude.{ℕ, ℤ, pos, ◌+◌, ◌-◌, ◌*◌, ◌/◌, ◌^◌, ◌<◌, ◌≤◌, ◌≡◌, String, Bool, true}
use drive_power.Prelude.Int.{is_int64}
use drive_power.Go.Errors.{Result, ok, Time}
use drive_power.Go.Jsons.{Fields, end, field, int, str}

-- What the library knows of a token once it has read it: its claims, and whether it is valid.
pub record Parsed (R : Type 0) : Type 0 where
  pub claims : Fields R
  pub valid : Bool

-- `sign` is NewWithClaims with HS256, and SignedString. `parse` is given the function that
-- chooses the key, of which it tells whether the token's method is one of the HMAC family, and the time.
pub record Jwt (R : Type 0) : Type 0 where
  pub sign : String → Fields R → Result String
  pub parse : (Bool → Result String) → Time → String → Result (Parsed R)

abbrev pub second : ℕ
second = 1_000_000_000

-- The seconds from the start of the year 0 to that of 1970.
abbrev pub epoch : ℕ
epoch = 62_167_219_200

-- jwt.NewNumericDate cuts an instant, of 1970 or later, to the second.

abbrev pub numeric_date : Time → ℕ
numeric_date t = t / second - epoch

-- Claims with the names that the services use, an expiry and an instant of issue, and no more: no
-- instant before which the token would not be valid (nbf), no audience, no issuer.
abbrev pub dated_claims : {R : Type 0} → ℤ → String → ℕ → ℕ → Fields R
dated_claims user role expiry issued =
    field "user_id" (int user) (
      field "role" (str role) (field "exp" (int (pos expiry)) (field "iat" (int (pos issued)) end)))

-- A token with such claims that was signed with a secret is valid under it until it expires, and is
-- read back with the claims that were signed. A date is read as a float64, so up to 2 ^ 53 exactly.
pub record JwtLaws {R : Type 0} (j : Jwt R) : Type 0 where
  pub verified :
      (secret token role : String) (user : ℤ) (expiry issued : ℕ) (key : Bool → Result String)
      (now : Time)
      → j.sign secret (dated_claims user role expiry issued) ≡ ok token
      → is_int64 user ≡ true
      → expiry ≤ 2 ^ 53
      → now < (expiry + epoch) * second
      → key true ≡ ok secret
      → j.parse key now token
        ≡ ok (record { claims = dated_claims user role expiry issued; valid = true })
