-- ===== src/Auth/Tokens.antt =====
-- backend/services/auth-service/internal/service/token_service.go and internal/password.
use drive_power.Prelude.{
  ℕ, ℤ, pos, negsuc, ◌+◌, ◌*◌, String, Bool, ◌==◌, string_eq, int_eq, if◌then◌else◌, ltb,
}
use drive_power.Go.{
  message, Result, ok, err, ◌>>=◌, Time, int, str, Fields, end, field, get, as_int64, as_string,
}
use drive_power.Go.Jwts.{Parsed, second, numeric_date}
use drive_power.Auth.Model.{Deps, Bcrypt, Env}

pub record Claims : Type 0 where
  pub user_id : ℤ
  pub role : String
  pub issued_at : ℕ
  pub expires_at : ℕ

abbrev hour : ℕ
hour = 3600 * second

-- The life of a token, for NewTokenService.
unfoldable pub lifetime : ℤ → ℕ
lifetime (pos n) = if ltb 0 n then n else hour
lifetime (negsuc n) = hour

module _ {R : Type 0} where
  -- The tags of Claims; `role` is written also where it is empty.
  unfoldable pub claims_json : Claims → Fields R
  claims_json c = field "user_id" (int c.user_id) (
      field "role" (str c.role)
        (field "exp" (int (pos c.expires_at)) (field "iat" (int (pos c.issued_at)) end)))

  unfoldable pub generate_token : Deps R → Time → ℤ → String → Result String
  generate_token deps now user_id role =
      if user_id == pos 0
      then err (message "token: user id is required")
      else deps.jwt.sign deps.secret (
          claims_json (record {
            user_id = user_id;
            role = role;
            issued_at = numeric_date now;
            expires_at = numeric_date (now + deps.expires_in);
          }))

  -- The key for a token: the secret, for a method of the HMAC family.
  unfoldable pub key_for : Deps R → Bool → Result String
  key_for deps hmac =
      if hmac then ok deps.secret else err (message "token: unexpected signing method")

  -- The claims that the services read from a token.
  unfoldable pub read_claims : Parsed R → Result (ℤ × String)
  read_claims parsed = do
    user ← as_int64 (get "user_id" parsed.claims)
    role ← as_string (get "role" parsed.claims)
    ok (user, role)

  unfoldable pub validate_token : Deps R → Time → String → Result (ℤ × String)
  validate_token deps now token = do
    parsed ← deps.jwt.parse (key_for deps) now token
    claims ← read_claims parsed
    if parsed.valid then ok claims else err (message "token: invalid claims")

-- NewBcryptHasher
unfoldable pub new_cost : Bcrypt → ℤ → ℤ
new_cost b cost = if cost == pos 0 then b.default_cost else cost

unfoldable pub hash_password : Bcrypt → ℤ → Env → String → Result String
hash_password b cost env password =
    if password == ""
    then err (message "password: empty password")
    else b.generate env.salt cost password

abbrev pub compare_password : Bcrypt → String → String → Result (Unit {0})
compare_password b hash password = b.compare hash password
