-- ===== src/Gateway/Middleware.antt =====
-- backend/services/api-gateway/internal/http/middleware: who a request is from, and the wrapping of
-- handlers. What they log is not modelled.
use drive_power.Prelude.{
  ℕ, ℤ, String, List, [], ◌∷◌, Option, none, some, Bool, ◌==◌, string_eq, if◌then◌else◌,
}
use drive_power.Go.{
  message, Result, ok, err, Platform, Time, Json, int, float, str, time, get, Request, Response,
  Handler, header_of, parse_int,
}
use drive_power.Go.Jwts.{Jwt}
use drive_power.Go.Texts.{equal_fold, split_first_space, trim_space}

-- http.Error: the text and a line break, as plain text
unfoldable pub http_error : {R : Type 0} → String → ℕ → Response R
http_error text status = record {
  status = status;
  header =
      ("Content-Type", "text/plain; charset=utf-8") ∷ ("X-Content-Type-Options", "nosniff") ∷ [];
  body = str text;
}

-- A handler that may find the id of a user in the context of its request.
abbrev pub UserHandler : Type 0 → Type 0 → Type 0
UserHandler R S = Option ℤ → Handler R S

unfoldable pub key_of : String → Bool → Result String
key_of secret hmac = if hmac then ok secret else err (message "token has invalid claims")

-- The user of a token, or the text with which the token is refused.
pub data Verdict : Type 0 where
  refused : String → Verdict
  user : ℤ → Verdict

abbrev pub user_of : Result ℤ → Verdict
user_of (err e) = refused "user id not found"
user_of (ok id) = user id

module _ {R : Type 0} ⦃p : Platform R⦄ where
  -- `claims["user_id"].(type)`: every JSON number is a float64.
  unfoldable pub extract_user_id : Json R → Result ℤ
  extract_user_id (int z) = ok (p.to_int (p.of_int z))
  extract_user_id (float x) = ok (p.to_int x)
  extract_user_id (str s) = parse_int s
  extract_user_id (time s t) = parse_int s
  extract_user_id _ = err (message "user_id not present")

  unfoldable pub check_token : Jwt R → String → Time → String → Verdict
  check_token jwt secret now token = elim (jwt.parse (key_of secret) now token) [
    | err e ↦ refused "invalid token"
    | ok parsed ↦
        if parsed.valid
        then user_of (extract_user_id (get "user_id" parsed.claims))
        else refused "invalid token"
  ]

  unfoldable pub check_header : Jwt R → String → Time → String → Verdict
  check_header jwt secret now header = elim (split_first_space header) [
    | none ↦ refused "invalid authorization header"
    | some (scheme, rest) ↦
        if equal_fold scheme "Bearer"
        then check_token jwt secret now (trim_space rest)
        else refused "invalid authorization header"
  ]

  unfoldable pub check_request : Jwt R → String → Time → Request R → Verdict
  check_request jwt secret now req =
      if header_of "Authorization" req == ""
      then refused "missing authorization header"
      else check_header jwt secret now (header_of "Authorization" req)

module _ {R S : Type 0} ⦃p : Platform R⦄ where
  unfoldable pub auth_middleware : Jwt R → String → Time → UserHandler R S → UserHandler R S
  auth_middleware jwt secret now next context req s = elim (check_request jwt secret now req) [
    | refused text ↦ (http_error text 401, s)
    | user id ↦ next (some id) req s
  ]

-- The first middleware is the outermost.
unfoldable pub chain :
    {R S : Type 0} → UserHandler R S → List (UserHandler R S → UserHandler R S) → UserHandler R S
chain handler [] = handler
chain handler (m ∷ ms) = m (chain handler ms)
