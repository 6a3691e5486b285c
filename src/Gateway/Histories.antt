-- ===== src/Gateway/Histories.antt =====
-- What a user sees through the gateway with the token of the auth service: the user's own sessions and
-- transactions.
use Prim.Native.String.{◌++◌}
use drive_power.Prelude.{
  ℕ, ℤ, pos, ◌+◌, ◌*◌, ◌≤◌, ◌<◌, ◌^◌, String, List, Option, none, some, ◌≡◌, ◌≢◌, refl, sym, arith,
  ap, subst, ◌∙◌, ◌⊎◌, inl, inr,
}
use drive_power.Go.{
  Error, ok, err, Platform, FloatLaws, Time, Request, Response, header_of, write_json,
  AnsweredBy-reply, format_nat, parse_int,
}
use drive_power.Go.Jwts.{JwtLaws, numeric_date, epoch, second}
use drive_power.Go.Texts.{trim_space}
use drive_power.Go.Decimals.{parse_int-format_nat, format_nat-ne}
use drive_power.Auth.Model
use drive_power.Auth.Service
use drive_power.Auth.Logins.{login-IsAuthentic}
use drive_power.Sessions.Model.{Env as SessionsEnv}
use drive_power.Sessions.Service.{Service as Charging}
use drive_power.Sessions.Handlers.{router as sessions_router}
use drive_power.Sessions.Mine.{MySessions, sessions_me-MySessions}
use drive_power.Billing.Model.{Env as BillingEnv, Db as Ledger, Transaction}
use drive_power.Billing.Handlers.{router as billing_router, transactions_json}
use drive_power.Sql.Newest.{IsNewest}
use drive_power.Billing.Repo.{belongs_to}
use drive_power.Billing.Replies.{MyTransactions, transactions_me_endpoint}
use drive_power.Gateway.Middleware.{user, check_request}
use drive_power.Gateway.Clients.{build_url, sessions_for_user, transactions_for_user}
use drive_power.Gateway.Handlers.{Env, Deps, router}
use drive_power.Gateway.Guards.{
  routed-ByVerdict, ByVerdict, verdict_on, call_for, UserRoute, sessions_route, billing_route,
  path_of,
}
use drive_power.Gateway.Journeys.{
  Reaches, my_request, passed, called, token_verdict, bearer_verdict,
}

-- A login, and a request to the gateway with its token before it expires: the gateway has the
-- library and the secret of the auth service, and the user's id and the expiry, in seconds from 1970,
-- are float64 values exactly. A token has no
-- space around it.
pub record IsLoggedIn {R W : Type 0} ⦃p : Platform R⦄ (aenv : Model.Env) (auth : Model.Deps R)
    (n : ℕ) (env : Env) (deps : Deps R W) (req : Request R) : Type 0 where
  pub email : String
  pub password : String
  pub accounts : Model.Db
  pub token : String
  pub account : Model.User
  pub logged_in : Service.login aenv auth email password accounts ≡ ok (token, account)
  pub numbered : account.id ≡ pos n
  pub small : n ≤ 2 ^ 53
  pub trimmed : trim_space token ≡ token
  pub same_jwt : deps.jwt ≡ auth.jwt
  pub same_secret : deps.secret ≡ auth.secret
  pub early : env.now < (numeric_date (aenv.now + auth.expires_in) + epoch) * second
  pub near : numeric_date (aenv.now + auth.expires_in) ≤ 2 ^ 53
  pub get : req.method ≡ "GET"
  pub header : header_of "Authorization" req ≡ "Bearer " ++ token

module _ {R W : Type 0} ⦃p : Platform R⦄ where
  accepted :
      (floats : FloatLaws R) (aenv : Model.Env) (auth : Model.Deps R) (tokens : JwtLaws auth.jwt)
      (n : ℕ) (env : Env) (deps : Deps R W) (req : Request R)
      → IsLoggedIn aenv auth n env deps req
      → check_request deps.jwt deps.secret env.now req ≡ user (pos n)
  accepted floats aenv auth tokens n env deps req h =
      let authentic =
        login-IsAuthentic aenv auth h.email h.password h.token h.accounts h.account h.logged_in in
      let verdict =
        token_verdict floats auth tokens aenv.now env.now h.account h.token n h.numbered h.small
          h.near authentic.signed h.early in
      ap (λ jwt. check_request jwt deps.secret env.now req) h.same_jwt
      ∙ ap (λ secret. check_request auth.jwt secret env.now req) h.same_secret
      ∙ bearer_verdict auth env.now req h.token n h.header h.trimmed verdict

  -- The gateway passes the request on for the user.
  asked_for :
      (floats : FloatLaws R) (aenv : Model.Env) (auth : Model.Deps R) (tokens : JwtLaws auth.jwt)
      (n : ℕ) (env : Env) (deps : Deps R W) (req : Request R) (w : W) (at : UserRoute)
      → IsLoggedIn aenv auth n env deps req
      → req.path ≡ path_of at
      → router env deps req w ≡ call_for deps at w (pos n)
  asked_for floats aenv auth tokens n env deps req w at h path =
      let call = call_for deps at w in
      let out = router env deps req w in
      let guarded =
        AnsweredBy-reply "GET" (ByVerdict (verdict_on env deps req) call w) req w out
          (routed-ByVerdict env deps req w at path) h.get in
      subst (λ v. ByVerdict v call w out) (accepted floats aenv auth tokens n env deps req h)
        guarded

-- The request that reaches a service names the user.
named :
    (R : Type 0) (path : String) (n : ℕ)
    → n ≤ 2 ^ 53
    → parse_int (header_of {R = R} "X-User-ID" (my_request path n)) ≡ ok (pos n)
unfolding drive_power.Prelude.lookup
named R path n small = parse_int-format_nat n (omega arith)

named_ne :
    (R : Type 0) (path : String) (n : ℕ) → header_of {R = R} "X-User-ID" (my_request path n) ≢ ""
unfolding drive_power.Prelude.lookup
named_ne R path n = format_nat-ne n

-- The URLs of the two calls.
rooted_urls :
    (base : String)
    → (build_url base "/sessions/me" ≡ base ++ "/sessions/me")
      × (build_url base "/billing/me/transactions" ≡ base ++ "/billing/me/transactions")
unfolding build_url drive_power.Go.Texts.has_prefix drive_power.Go.Texts.without_prefix
rooted_urls base = (refl, refl)

module _ {R : Type 0} ⦃p : Platform R⦄ where
  -- The newest 50 transactions of a user; or 500 where the listing fails.
  abbrev pub MyBills : BillingEnv → ℤ → Ledger R → Response R → Type 0
  MyBills benv id db out =
      ((e : Error) × (benv.list_fault ≡ some e) × (out.status ≡ 500))
      ⊎ ((found : List (Transaction R)) × IsNewest (λ (tx : Transaction R). tx.created_at)
            (belongs_to id) 50 db.transactions found
          × (out ≡ write_json 200 (transactions_json found)))

  bills_of :
      (benv : BillingEnv) (id : ℤ) (db : Ledger R) (text : String) (out : Response R)
      → text ≢ ""
      → parse_int text ≡ ok id
      → MyTransactions benv db text out
      → MyBills benv id db out
  bills_of benv id db text out given parsed (inl (empty, _)) = absurd (given empty)
  bills_of benv id db text out given parsed (inr (inl (_, (e, wrong, _)))) =
      absurd (ground (arith, parsed, wrong))
  bills_of benv id db text out given parsed (inr (inr (other, read, bills))) =
      let same : other ≡ id = cc (sym read ∙ parsed) in
      subst (λ (i : ℤ). MyBills benv i db out) same bills

  -- Whoever logs in at the auth service gets, at GET /api/sessions/me with the token, before it
  -- expires, and with an id and an expiry up to 2 ^ 53, the sessions of the account: the newest 50 of that user, newest first, and of no other
  -- user; or 500 where the sessions service cannot list them. Nothing changes.
  pub login_opens_sessions :
      (floats : FloatLaws R) (aenv : Model.Env) (auth : Model.Deps R) (tokens : JwtLaws auth.jwt)
      (n : ℕ) (env : Env) (deps : Deps R (Charging R)) (req : Request R) (senv : SessionsEnv)
      (svc : Charging R)
      → IsLoggedIn aenv auth n env deps req
      → req.path ≡ "/api/sessions/me"
      → Reaches deps.doer deps.sessions_url (sessions_router senv)
      → (answer : Response R) × MySessions senv (pos n) svc answer
        × (router env deps req svc ≡ (passed answer, svc))
  unfolding sessions_for_user
  login_opens_sessions floats aenv auth tokens n env deps req senv svc h path reach =
      let (mine, kept) =
        sessions_me-MySessions senv (my_request "/sessions/me" n) svc (pos n) refl refl
          (named_ne R "/sessions/me" n) (named R "/sessions/me" n h.small) in
      let call =
        called deps.doer deps.sessions_url "/sessions/me" (sessions_router senv) reach
          "sessions service unavailable" n svc (rooted_urls deps.sessions_url).0 in
      let through = asked_for floats aenv auth tokens n env deps req svc sessions_route h path in
      (
        (sessions_router senv (my_request "/sessions/me" n) svc).0,
        mine,
        through
            ∙ call
            ∙ ap (λ s. (passed (sessions_router senv (my_request "/sessions/me" n) svc).0, s)) kept,
      )

  -- Likewise at GET /api/billing/me/transactions: the newest 50 transactions of that user, newest
  -- first, and of no other user; or 500 where the billing service cannot list them.
  pub login_opens_transactions :
      (floats : FloatLaws R) (aenv : Model.Env) (auth : Model.Deps R) (tokens : JwtLaws auth.jwt)
      (n : ℕ) (env : Env) (deps : Deps R (Ledger R)) (req : Request R) (benv : BillingEnv)
      (db : Ledger R)
      → IsLoggedIn aenv auth n env deps req
      → req.path ≡ "/api/billing/me/transactions"
      → Reaches deps.doer deps.billing_url (billing_router benv)
      → (answer : Response R) × MyBills benv (pos n) db answer
        × (router env deps req db ≡ (passed answer, db))
  unfolding transactions_for_user
  login_opens_transactions floats aenv auth tokens n env deps req benv db h path reach =
      let asked = my_request "/billing/me/transactions" n in
      let (mine, kept) = transactions_me_endpoint benv asked db refl refl in
      let call =
        called deps.doer deps.billing_url "/billing/me/transactions" (billing_router benv) reach
          "billing service unavailable" n db (rooted_urls deps.billing_url).1 in
      let through = asked_for floats aenv auth tokens n env deps req db billing_route h path in
      (
        (billing_router benv asked db).0,
        bills_of benv (pos n) db _ _ (named_ne R "/billing/me/transactions" n)
            (named R "/billing/me/transactions" n h.small) mine,
        through ∙ call ∙ ap (λ s. (passed (billing_router benv asked db).0, s)) kept,
      )
