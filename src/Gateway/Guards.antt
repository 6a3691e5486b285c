-- ===== src/Gateway/Guards.antt =====
-- Which requests get through the gateway to the services of a user.
use Prim.Native.String.{◌++◌ as append}
use drive_power.Prelude.{
  ℤ, String, [], ◌∷◌, none, some, ◌≡◌, ◌∙◌, ◌⊎◌, inl, inr, refl, sym, ap, subst, arith, lookup,
  string_eq,
}
use drive_power.Go.{
  Result, ok, err, Platform, Request, Response, AnsweredBy, mux-AnsweredBy, status_of, write_error,
  write_json,
}
use drive_power.Gateway.Clients.{
  Outgoing, format_int, replied, send, outgoing, build_url, sessions_for_user,
  transactions_for_user,
}
use drive_power.Gateway.Accepted.{IsAccepted, check_request-IsAccepted}
use drive_power.Gateway.Middleware.{
  UserHandler, Verdict, refused, user, http_error, check_request, auth_middleware, chain,
}
use drive_power.Gateway.Handlers.{
  Env, Deps, proxied, write_raw, sessions_me, transactions_me, routes, router, authenticated,
}

-- The routes for the data of a user.
pub data UserRoute : Type 0 where
  sessions_route billing_route : UserRoute

abbrev pub path_of : UserRoute → String
path_of sessions_route = "/api/sessions/me"
path_of billing_route = "/api/billing/me/transactions"

module _ {R W : Type 0} ⦃p : Platform R⦄ where
  -- What a request for data of a user comes to, by the verdict on its token.
  abbrev pub ByVerdict : Verdict → (ℤ → Response R × W) → W → Response R × W → Type 0
  ByVerdict (refused text) call w out = out ≡ (http_error text 401, w)
  ByVerdict (user id) call w out = out ≡ call id

  abbrev pub verdict_on : Env → Deps R W → Request R → Verdict
  verdict_on env deps req = check_request deps.jwt deps.secret env.now req

  authenticated-ByVerdict :
      (env : Env) (deps : Deps R W) (handler : UserHandler R W) (req : Request R) (w : W)
      → ByVerdict
          (verdict_on env deps req)
          (λ id. handler (some id) req w)
          w
          (authenticated env deps handler none req w)
  unfolding chain auth_middleware
  authenticated-ByVerdict env deps handler req w = ground arith

  -- The call of a service for a user, by the route.
  abbrev pub call_for : Deps R W → UserRoute → W → ℤ → Response R × W
  call_for deps sessions_route w id =
      proxied "sessions service unavailable" (sessions_for_user deps.doer deps.sessions_url id w)
  call_for deps billing_route w id =
      proxied "billing service unavailable" (transactions_for_user deps.doer deps.billing_url id w)

  -- At the two routes the verdict on the token decides.
  pub routed-ByVerdict :
      (env : Env) (deps : Deps R W) (req : Request R) (w : W) (at : UserRoute)
      → req.path ≡ path_of at
      → AnsweredBy "GET"
          (ByVerdict (verdict_on env deps req) (call_for deps at w) w)
          req
          w
          (router env deps req w)
  unfolding router routes lookup sessions_me transactions_me
  routed-ByVerdict env deps req w sessions_route path =
      mux-AnsweredBy "GET" (ByVerdict (verdict_on env deps req) (call_for deps sessions_route w) w)
        (routes env deps) (authenticated env deps (sessions_me deps) none) req w (rw path refl)
        (authenticated-ByVerdict env deps (sessions_me deps) req w)
  routed-ByVerdict env deps req w billing_route path =
      mux-AnsweredBy "GET" (ByVerdict (verdict_on env deps req) (call_for deps billing_route w) w)
        (routes env deps) (authenticated env deps (transactions_me deps) none) req w (rw path refl)
        (authenticated-ByVerdict env deps (transactions_me deps) req w)

  -- The request for the user's data: its URL, and the header that names the user.
  abbrev pub asked : Deps R W → UserRoute → ℤ → Outgoing R
  asked deps sessions_route id = record {
    method = "GET";
    url = append deps.sessions_url "/sessions/me";
    header = ("X-User-ID", format_int id) ∷ [];
    body = none;
  }
  asked deps billing_route id = record {
    method = "GET";
    url = append deps.billing_url "/billing/me/transactions";
    header = ("X-User-ID", format_int id) ∷ [];
    body = none;
  }

  -- The status and the body of the service's answer, as JSON; or 502 where there is none.
  abbrev pub IsRelayed : Result (Response R) × W → Response R × W → Type 0
  IsRelayed (ok answer, w) out = out ≡ (
    record {
      status = answer.status;
      header = ("Content-Type", "application/json") ∷ [];
      body = answer.body;
    },
    w,
  )
  IsRelayed (err e, w) out = (status_of out ≡ 502) × (out.1 ≡ w)

  relayed :
      (text : String) (answer : Result (Response R) × W)
      → IsRelayed answer (proxied text (replied answer.0, answer.1))
  unfolding write_raw write_error write_json
  relayed text (ok answer, w) = refl
  relayed text (err e, w) = (refl, refl)

  call-IsRelayed :
      (deps : Deps R W) (at : UserRoute) (id : ℤ) (w : W)
      → IsRelayed (deps.doer (asked deps at id) w) (call_for deps at w id)
  unfolding sessions_for_user transactions_for_user send outgoing build_url
      drive_power.Go.Texts.has_prefix drive_power.Go.Texts.without_prefix
  call-IsRelayed deps sessions_route id w = relayed _ (deps.doer (asked deps sessions_route id) w)
  call-IsRelayed deps billing_route id w = relayed _ (deps.doer (asked deps billing_route id) w)

  -- What a request for data of a user comes to: it is a user's, and that user's data are asked for; or it
  -- is no one's, and nothing is asked for.
  abbrev pub IsGuarded : Env → Deps R W → UserRoute → Request R → W → Response R × W → Type 0
  IsGuarded env deps at req w out =
      ((id : ℤ) × IsAccepted deps.jwt deps.secret env.now req id
        × IsRelayed (deps.doer (asked deps at id) w) out)
      ⊎ (((id : ℤ) → ¬ IsAccepted deps.jwt deps.secret env.now req id)
          × (status_of out ≡ 401)
          × (out.1 ≡ w))

  ByVerdict-IsGuarded :
      (env : Env) (deps : Deps R W) (at : UserRoute) (req : Request R) (w : W)
      (out : Response R × W) (v : Verdict)
      → verdict_on env deps req ≡ v
      → ByVerdict v (call_for deps at w) w out
      → IsGuarded env deps at req w out
  unfolding http_error
  ByVerdict-IsGuarded env deps at req w out (user id) q h = inl (
    id,
    (check_request-IsAccepted deps.jwt deps.secret env.now req id).0 q,
    subst (IsRelayed (deps.doer (asked deps at id) w)) (sym h) (call-IsRelayed deps at id w),
  )
  ByVerdict-IsGuarded env deps at req w out (refused text) q h = inr (
    λ id accepted.
        let other = (check_request-IsAccepted deps.jwt deps.secret env.now req id).1 accepted in
        ground (arith, sym q ∙ other),
    ap (λ (o : Response R × W). status_of o) h,
    ap (λ (o : Response R × W). o.1) h,
  )

  -- GET /api/sessions/me and GET /api/billing/me/transactions: where the request has a token that is
  -- accepted for a user, the service is asked at its URL for the data of that user, and the status and
  -- the body of its answer are passed on, or 502 where it does not answer. Where it has no such
  -- token, the answer is 401, for another method 405, and then no service is called.
  pub user_routes-IsGuarded :
      (env : Env) (deps : Deps R W) (req : Request R) (w : W) (at : UserRoute)
      → req.path ≡ path_of at
      → AnsweredBy "GET" (IsGuarded env deps at req w) req w (router env deps req w)
  user_routes-IsGuarded env deps req w at path = elim (routed-ByVerdict env deps req w at path) [
    | inl (same, h) ↦
        inl (same, ByVerdict-IsGuarded env deps at req w _ (verdict_on env deps req) refl h)
    | inr other ↦ inr other
  ]
