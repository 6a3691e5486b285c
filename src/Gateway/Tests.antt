-- ===== src/Gateway/Tests.antt =====
-- The gateway on concrete input: behind it the sessions or the billing service, and the account of the
-- auth service's tests.
use drive_power.Prelude.{
  arith, ℤ, pos, ◌+◌, String, [], ◌∷◌, Option, none, some, ◌≡◌, ◌↔◌, refl, lookup, string_eq,
}
use drive_power.Go.{
  Error, message, Result, ok, err, Request, Response, Handler, AnsweredBy, header_of, Json, str,
  obj, field, end,
}
use drive_power.Go.Sample.{sample_platform, sample_laws}
use drive_power.Go.Texts.{
  without_prefix, without_prefix-append, trim_space, is_space, trim_left, trim_right, equal_fold,
  split_first_space, then_first, fold_case,
}
use drive_power.Auth.Users.{clean, find_user, get_by_email}
use drive_power.Auth.Service.{login, login_user}
use drive_power.Auth.Tokens.{generate_token, claims_json}
use drive_power.Auth.Tests.{
  sample_deps, sample_jwt, sample_jwt_laws, is_sample, int_is, str_is, calm, of_ann, ann, at,
}
use drive_power.Sessions.Service.{Service}
use drive_power.Sessions.Handlers.{router as sessions_router}
use drive_power.Sessions.Mine.{MySessions}
use drive_power.Sessions.Model.{Row, Env as SessionsEnv}
use drive_power.Billing.Model.{Db, Env as BillingEnv}
use drive_power.Billing.Handlers.{router as billing_router}
use drive_power.Gateway.Clients.{Doer}
use drive_power.Gateway.Middleware.{
  user, check_request, check_header, check_token, key_of, extract_user_id,
}
use drive_power.Gateway.Handlers.{Env, Deps, router}
use drive_power.Gateway.Guards.{user_routes-IsGuarded, IsGuarded, sessions_route}
use drive_power.Gateway.Accepted.{IsAccepted, check_request-IsAccepted}
use drive_power.Gateway.Journeys.{Reaches, passed}
use drive_power.Gateway.Histories.{
  IsLoggedIn, login_opens_sessions, login_opens_transactions, MyBills,
}

-- A network with one service, at one URL.
module _ {W : Type 0} (base : String) (serve : Handler ℤ W) where
  abbrev answer_at : Request ℤ → Option String → W → Result (Response ℤ) × W
  answer_at req none w = (err (message "no such host"), w)
  answer_at req (some path) w =
      (ok (serve (record req { path = path }) w).0, (serve (record req { path = path }) w).1)

  abbrev network : Doer ℤ W
  network out w =
      answer_at (record { method = out.method; path = ""; header = out.header; body = out.body })
        (without_prefix base out.url) w

  network-Reaches : Reaches network base serve
  network-Reaches = record { served = λ path req w. rw (without_prefix-append base path) refl }

  abbrev deps : Deps ℤ W
  deps = record {
    doer = network;
    auth_url = base;
    sessions_url = base;
    billing_url = base;
    stations_url = base;
    jwt = sample_jwt;
    secret = "secret";
  }

abbrev now : Env
now = record { now = at + 5; body_fault = none }

abbrev asking : String → Request ℤ
asking path = record {
  method = "GET";
  path = path;
  header = ("Authorization", "Bearer t.o.k") ∷ [];
  body = none;
}

ann_logs_in : login calm sample_deps "ann@example.org" "pw" of_ann ≡ ok ("t.o.k", ann)
unfolding login login_user get_by_email find_user clean drive_power.Go.Texts.to_lower trim_space
    is_space trim_left trim_right generate_token sample_jwt is_sample int_is str_is claims_json
ann_logs_in = refl

trimmed : trim_space "t.o.k" ≡ "t.o.k"
unfolding trim_space is_space trim_left trim_right
trimmed = refl

logged_in :
    {W : Type 0} (base path : String) (serve : Handler ℤ W)
    → IsLoggedIn calm sample_deps 1 now (deps base serve) (asking path)
unfolding lookup
logged_in base path serve = record {
  email = "ann@example.org";
  password = "pw";
  accounts = of_ann;
  token = "t.o.k";
  account = ann;
  logged_in = ann_logs_in;
  numbered = refl;
  small = omega arith;
  trimmed = trimmed;
  same_jwt = refl;
  same_secret = refl;
  early = omega arith;
  near = omega arith;
  get = refl;
  header = refl;
}

abbrev fine : SessionsEnv
fine = record { now = at; db_now = at; db_fault = none; affected_fault = none; cache_fault = none }

-- A session of the user 1 that has ended, and one of the user 2.
abbrev ended : Row ℤ
ended = record {
  id = 1;
  user_id = pos 1;
  station_id = "S1";
  connector_id = pos 1;
  status = "completed";
  start_time = 50;
  end_time = some 60;
  energy_kwh = pos 4;
  transaction = "T1";
  created_at = 50;
  updated_at = 60;
}

abbrev charging : Service ℤ
charging = record {
  db = record {
    rows = record ended { id = 2; user_id = pos 2; transaction = "T2" } ∷ ended ∷ [];
    next_id = 3;
    stations = [];
  };
  store = none;
}

abbrev behind : Deps ℤ (Service ℤ)
behind = deps "http://sessions" (sessions_router fine)

login_opens_sessions_example :
    (answer : Response ℤ) × MySessions fine (pos 1) charging answer
    × (router now behind (asking "/api/sessions/me") charging ≡ (passed answer, charging))
login_opens_sessions_example =
    login_opens_sessions sample_laws calm sample_deps sample_jwt_laws 1 now behind
      (asking "/api/sessions/me") fine charging
      (logged_in "http://sessions" "/api/sessions/me" (sessions_router fine)) refl
      (network-Reaches "http://sessions" (sessions_router fine))

abbrev bills_env : BillingEnv
bills_env = record { db_now = at; tariff_fault = none; insert_fault = none; list_fault = none }

abbrev ledger : Db ℤ
ledger = record { tariffs = []; transactions = []; next_id = 1 }

abbrev with_bills : Deps ℤ (Db ℤ)
with_bills = deps "http://billing" (billing_router bills_env)

login_opens_transactions_example :
    (answer : Response ℤ) × MyBills bills_env (pos 1) ledger answer
    × (router now with_bills (asking "/api/billing/me/transactions") ledger
        ≡ (passed answer, ledger))
login_opens_transactions_example =
    login_opens_transactions sample_laws calm sample_deps sample_jwt_laws 1 now with_bills
      (asking "/api/billing/me/transactions") bills_env ledger
      (logged_in "http://billing" "/api/billing/me/transactions" (billing_router bills_env)) refl
      (network-Reaches "http://billing" (billing_router bills_env))

user_routes-IsGuarded_example :
    AnsweredBy "GET"
      (IsGuarded now behind sessions_route (asking "/api/sessions/me") charging)
      (asking "/api/sessions/me")
      charging
      (router now behind (asking "/api/sessions/me") charging)
user_routes-IsGuarded_example =
    user_routes-IsGuarded now behind (asking "/api/sessions/me") charging sessions_route refl

accepted_now : check_request sample_jwt "secret" (at + 5) (asking "/api/sessions/me") ≡ user (pos 1)
unfolding check_request check_header check_token sample_jwt key_of extract_user_id split_first_space
    then_first equal_fold fold_case trim_space is_space trim_left trim_right lookup
    drive_power.Go.get
accepted_now = refl

check_request-IsAccepted_example :
    (check_request sample_jwt "secret" (at + 5) (asking "/api/sessions/me") ≡ user (pos 1))
    ↔ IsAccepted sample_jwt "secret" (at + 5) (asking "/api/sessions/me") (pos 1)
check_request-IsAccepted_example =
    check_request-IsAccepted sample_jwt "secret" (at + 5) (asking "/api/sessions/me") (pos 1)
