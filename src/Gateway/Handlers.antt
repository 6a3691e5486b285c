-- ===== src/Gateway/Handlers.antt =====
-- backend/services/api-gateway/internal/http/handlers and router.go. What the handlers log is not
-- modelled.
use drive_power.Prelude.{String, [], ◌∷◌, Assoc, Option, none, some}
use drive_power.Go.{
  Error, Result, ok, err, Platform, Time, str, obj, end, field, Response, Handler, write_json,
  write_error, method, mux,
}
use drive_power.Go.Jwts.{Jwt}
use drive_power.Gateway.Clients.{
  Doer, Reply, signup, login, sessions_for_user, transactions_for_user, list_stations,
}
use drive_power.Gateway.Middleware.{UserHandler, auth_middleware, chain}

-- The clients with their base URLs, and the library and the secret for tokens.
pub record Deps (R W : Type 0) : Type 0 where
  pub doer : Doer R W
  pub auth_url : String
  pub sessions_url : String
  pub billing_url : String
  pub stations_url : String
  pub jwt : Jwt R
  pub secret : String

-- What a request meets: the time, and the error of reading its body, if any.
pub record Env : Type 0 where
  pub now : Time
  pub body_fault : Option Error

module _ {R : Type 0} where
  unfoldable pub write_raw : Reply R → Response R
  write_raw r = record {
    status = r.status;
    header = ("Content-Type", "application/json") ∷ [];
    body = r.body;
  }

  -- The answer to a proxied call.
  abbrev passed_on : String → Result (Reply R) → Response R
  passed_on text (ok r) = write_raw r
  passed_on text (err e) = write_error 502 text

  abbrev pub proxied : {W : Type 0} → String → Result (Reply R) × W → Response R × W
  proxied text (out, w) = (passed_on text out, w)

module _ {R W : Type 0} where
  unfoldable pub handle_signup : Env → Deps R W → UserHandler R W
  handle_signup env deps context req w = elim env.body_fault [
    | some e ↦ (write_error 400 "invalid body", w)
    | none ↦ proxied "auth service unavailable" (signup deps.doer deps.auth_url req.body w)
  ]

  unfoldable pub handle_login : Env → Deps R W → UserHandler R W
  handle_login env deps context req w = elim env.body_fault [
    | some e ↦ (write_error 400 "invalid body", w)
    | none ↦ proxied "auth service unavailable" (login deps.doer deps.auth_url req.body w)
  ]

  unfoldable pub stations_list : Deps R W → UserHandler R W
  stations_list deps context req w =
      proxied "stations service unavailable" (list_stations deps.doer deps.stations_url w)

  unfoldable pub sessions_me : Deps R W → UserHandler R W
  sessions_me deps none req w = (write_error 401 "unauthorized", w)
  sessions_me deps (some id) req w =
      proxied "sessions service unavailable" (sessions_for_user deps.doer deps.sessions_url id w)

  unfoldable pub transactions_me : Deps R W → UserHandler R W
  transactions_me deps none req w = (write_error 401 "unauthorized", w)
  transactions_me deps (some id) req w =
      proxied "billing service unavailable" (transactions_for_user deps.doer deps.billing_url id w)

  unfoldable pub health : UserHandler R W
  health context req w = (write_json 200 (obj (field "status" (str "ok") end)), w)

module _ {R W : Type 0} ⦃p : Platform R⦄ where
  -- The routes behind the middleware see the request's user.
  abbrev pub authenticated : Env → Deps R W → UserHandler R W → UserHandler R W
  authenticated env deps handler = chain handler (auth_middleware deps.jwt deps.secret env.now ∷ [])

  -- The context of a request that comes in has no user.
  unfoldable pub routes : Env → Deps R W → Assoc String (Handler R W)
  routes env deps =
      ("/health", method "GET" (health none))
      ∷ ("/api/auth/signup", method "POST" (handle_signup env deps none))
      ∷ ("/api/auth/login", method "POST" (handle_login env deps none))
      ∷ ("/api/stations", method "GET" (stations_list deps none))
      ∷ ("/api/sessions/me", method "GET" (authenticated env deps (sessions_me deps) none))
      ∷ (
        "/api/billing/me/transactions",
        method "GET" (authenticated env deps (transactions_me deps) none),
      )
      ∷ []

  unfoldable pub router : Env → Deps R W → Handler R W
  router env deps = mux (routes env deps)
