-- ===== src/Gateway/Accepted.antt =====
-- Which requests the gateway takes for a user's.
use drive_power.Prelude.{
  ℤ, String, Option, none, some, true, ◌≡◌, ◌≢◌, ◌↔◌, refl, sym, ap, ◌∙◌, arith, string_eq, ==_iff,
}
use drive_power.Go.{
  Result, ok, err, Platform, Time, Json, null, bool, int, float, str, time, arr, obj, get, Request,
  header_of, parse_int,
}
use drive_power.Go.Jwts.{Jwt, Parsed}
use drive_power.Go.Texts.{split_first_space, trim_space, equal_fold}
use drive_power.Gateway.Middleware.{
  user, check_request, check_header, check_token, extract_user_id, key_of,
}

given_header :
    (text : String) (parts : String × String) → split_first_space text ≡ some parts → text ≢ ""
unfolding split_first_space
given_header text parts split e = absurd (ground (arith, ap split_first_space (sym e) ∙ split))

module _ {R : Type 0} ⦃p : Platform R⦄ where
  -- A claim names a user by a number, which is read as a float64, or by a text in decimals.
  abbrev pub Names : Json R → ℤ → Type 0
  Names (int z) id = id ≡ p.to_int (p.of_int z)
  Names (float x) id = id ≡ p.to_int x
  Names (str s) id = parse_int s ≡ ok id
  Names (time s t) id = parse_int s ≡ ok id
  Names _ id = ⊥

  extract_user_id-Names :
      (claim : Json R) (id : ℤ) → (extract_user_id claim ≡ ok id) ↔ Names claim id
  unfolding extract_user_id
  extract_user_id-Names (int z) id = (λ h. cc h, λ h. ap ok (sym h))
  extract_user_id-Names (float x) id = (λ h. cc h, λ h. ap ok (sym h))
  extract_user_id-Names (str s) id = (λ h. h, λ h. h)
  extract_user_id-Names (time s t) id = (λ h. h, λ h. h)
  extract_user_id-Names null id = (λ h. ground (arith, h), λ h. absurd h)
  extract_user_id-Names (bool b) id = (λ h. ground (arith, h), λ h. absurd h)
  extract_user_id-Names (arr items) id = (λ h. ground (arith, h), λ h. absurd h)
  extract_user_id-Names (obj fields) id = (λ h. ground (arith, h), λ h. absurd h)

-- What an accepted request rests on.
pub record IsAccepted {R : Type 0} ⦃p : Platform R⦄ (jwt : Jwt R) (secret : String) (now : Time)
    (req : Request R) (id : ℤ) : Type 0 where
  pub scheme : String
  pub token : String
  pub header : split_first_space (header_of "Authorization" req) ≡ some (scheme, token)
  pub bearer : equal_fold scheme "Bearer" ≡ true
  pub parsed : Parsed R
  pub verified : jwt.parse (key_of secret) now (trim_space token) ≡ ok parsed
  pub valid : parsed.valid ≡ true
  pub claimed : Names (get "user_id" parsed.claims) id

module _ {R : Type 0} ⦃p : Platform R⦄ where
  token_accepted :
      (jwt : Jwt R) (secret token : String) (now : Time) (id : ℤ)
      → check_token jwt secret now token ≡ user id
      → (parsed : Parsed R) × (jwt.parse (key_of secret) now token ≡ ok parsed)
        × (parsed.valid ≡ true)
        × (extract_user_id (get "user_id" parsed.claims) ≡ ok id)
  unfolding check_token
  token_accepted jwt secret token now id h = go (jwt.parse (key_of secret) now token) refl
    where
      go :
          (out : Result (Parsed R))
          → jwt.parse (key_of secret) now token ≡ out
          → (parsed : Parsed R) × (jwt.parse (key_of secret) now token ≡ ok parsed)
            × (parsed.valid ≡ true)
            × (extract_user_id (get "user_id" parsed.claims) ≡ ok id)
      go (err e) q = absurd (ground (arith, h, q))
      go (ok parsed) q = (parsed, q, ground (arith, h, q), ground (arith, h, q))

  header_accepted :
      (jwt : Jwt R) (secret header : String) (now : Time) (id : ℤ)
      → check_header jwt secret now header ≡ user id
      → (scheme : String) × (rest : String) × (split_first_space header ≡ some (scheme, rest))
        × (equal_fold scheme "Bearer" ≡ true)
        × (check_token jwt secret now (trim_space rest) ≡ user id)
  unfolding check_header
  header_accepted jwt secret header now id h = go (split_first_space header) refl
    where
      go :
          (out : Option (String × String))
          → split_first_space header ≡ out
          → (scheme : String) × (rest : String) × (split_first_space header ≡ some (scheme, rest))
            × (equal_fold scheme "Bearer" ≡ true)
            × (check_token jwt secret now (trim_space rest) ≡ user id)
      go none q = absurd (ground (arith, h, q))
      go (some (scheme, rest)) q = (scheme, rest, q, ground (arith, h, q), ground (arith, h, q))

  request-IsAccepted :
      (jwt : Jwt R) (secret : String) (now : Time) (req : Request R) (id : ℤ)
      → check_request jwt secret now req ≡ user id
      → IsAccepted jwt secret now req id
  unfolding check_request
  request-IsAccepted jwt secret now req id h =
      let (scheme, rest, split, bearer, h1) =
        header_accepted jwt secret (header_of "Authorization" req) now id (ground (arith, h)) in
      let (parsed, verified, valid, claimed) =
        token_accepted jwt secret (trim_space rest) now id h1 in
      record {
        scheme = scheme;
        token = rest;
        header = split;
        bearer = bearer;
        parsed = parsed;
        verified = verified;
        valid = valid;
        claimed = (extract_user_id-Names (get "user_id" parsed.claims) id).0 claimed;
      }

  accepted_request :
      (jwt : Jwt R) (secret : String) (now : Time) (req : Request R) (id : ℤ)
      → IsAccepted jwt secret now req id
      → check_request jwt secret now req ≡ user id
  unfolding check_request check_header check_token
  accepted_request jwt secret now req id h = ground (
    arith,
    h.header,
    h.bearer,
    h.verified,
    h.valid,
    (extract_user_id-Names (get "user_id" h.parsed.claims) id).1 h.claimed,
    ==_iff (header_of "Authorization" req) "",
    given_header (header_of "Authorization" req) (h.scheme, h.token) h.header,
  )

  -- A request counts as a user's where its Authorization header is "Bearer" and a token that the library
  -- accepts under the gateway's secret, the token is valid, and its claim user_id names that user;
  -- and only there.
  pub check_request-IsAccepted :
      (jwt : Jwt R) (secret : String) (now : Time) (req : Request R) (id : ℤ)
      → (check_request jwt secret now req ≡ user id) ↔ IsAccepted jwt secret now req id
  check_request-IsAccepted jwt secret now req id =
      (request-IsAccepted jwt secret now req id, accepted_request jwt secret now req id)
