-- ===== src/Gateway/Journeys.antt =====
-- A user's way through the gateway: the token of the auth service opens the user's own data in the
-- sessions and the billing service, and no one else's.
use Prim.Native.String.{◌++◌}
use text.Mathlib.TextLemmas.{nil-append, cons-append, cons≢nil}
use drive_power.Prelude.{
  ℕ, ℤ, pos, ◌+◌, ◌*◌, ◌≤◌, ◌<◌, ◌^◌, String, none, some, ◌≡◌, ◌≢◌, refl, sym, arith, ap, ◌∙◌,
  string_eq, ==_iff,
}
use mathlib.Core.List.{[] as no_headers, ◌∷◌ as more}
use drive_power.Go.{
  Error, Result, ok, err, Platform, FloatLaws, Time, Json, get, int, Request, Response, Handler,
  header_of, write_json, format_nat, parse_int,
}
use drive_power.Go.Jwts.{JwtLaws, numeric_date, epoch, second}
use drive_power.Go.Texts.{split_first_space, equal_fold, trim_space, then_first}
use drive_power.Auth.Model
use drive_power.Auth.Tokens.{claims_json}
use drive_power.Auth.Logins.{claims_of}
use drive_power.Gateway.Clients.{Doer, replied, nil_body, send, outgoing, build_url, format_int}
use drive_power.Gateway.Middleware.{
  user, check_request, check_header, check_token, extract_user_id, key_of,
}
use drive_power.Gateway.Handlers.{proxied, write_raw}

-- A service answers the requests to its base URL, and to nothing else does it matter here.
pub record Reaches {R W : Type 0} (doer : Doer R W) (base : String) (serve : Handler R W)
    : Type 0 where
  pub served :
      (path : String) (req : Request R) (w : W)
      → doer
          (record { method = req.method; url = base ++ path; header = req.header; body = req.body })
          w
        ≡ (ok (serve (record req { path = path }) w).0, (serve (record req { path = path }) w).1)

bearer_header : (token : String) → split_first_space ("Bearer " ++ token) ≡ some ("Bearer", token)
unfolding split_first_space then_first
bearer_header token =
    rw
      (
        cons-append "B" "earer " token,
        cons-append "e" "arer " token,
        cons-append "a" "rer " token,
        cons-append "r" "er " token,
        cons-append "e" "r " token,
        cons-append "r" " " token,
        cons-append " " "" token,
        nil-append token,
      )
      refl

bearer_ne : (token : String) → "Bearer " ++ token ≢ ""
bearer_ne token e = cons≢nil (sym (cons-append "B" "earer " token) ∙ e)

-- What the service is asked, and what the gateway passes on of its answer.
abbrev pub my_request : {R : Type 0} → String → ℕ → Request R
my_request path n = record {
  method = "GET";
  path = path;
  header = more ("X-User-ID", format_nat n) no_headers;
  body = none;
}

abbrev pub passed : {R : Type 0} → Response R → Response R
passed r = write_raw (record { status = r.status; body = r.body })

module _ {R : Type 0} ⦃p : Platform R⦄ where
  -- The token that was signed for a user is accepted for the id of that user.
  pub token_verdict :
      (floats : FloatLaws R) (auth : Model.Deps R) (tokens : JwtLaws auth.jwt) (issued now : Time)
      (u : Model.User) (token : String) (n : ℕ)
      → u.id ≡ pos n
      → n ≤ 2 ^ 53
      → numeric_date (issued + auth.expires_in) ≤ 2 ^ 53
      → auth.jwt.sign auth.secret (claims_json (claims_of auth issued u)) ≡ ok token
      → now < (numeric_date (issued + auth.expires_in) + epoch) * second
      → check_token auth.jwt auth.secret now token ≡ user (pos n)
  unfolding check_token claims_json drive_power.Go.get extract_user_id key_of
  token_verdict floats auth tokens issued now u token n same small near signed early =
      let verified =
        tokens.verified auth.secret token u.role u.id (numeric_date (issued + auth.expires_in))
          (numeric_date issued) (key_of auth.secret) now signed (ground (arith, same, small)) near
          early refl in
      rw (verified, check_token)
        (ap (λ (id : ℤ). user (p.to_int (p.of_int id))) same
          ∙ ap user (floats.to_int-of_int n small))

  pub bearer_verdict :
      (auth : Model.Deps R) (now : Time) (req : Request R) (token : String) (n : ℕ)
      → header_of "Authorization" req ≡ "Bearer " ++ token
      → trim_space token ≡ token
      → check_token auth.jwt auth.secret now token ≡ user (pos n)
      → check_request auth.jwt auth.secret now req ≡ user (pos n)
  unfolding check_request check_header equal_fold
  bearer_verdict auth now req token n header trimmed verdict = ground (
    arith,
    header,
    trimmed,
    verdict,
    bearer_header token,
    bearer_ne token,
    ==_iff ("Bearer " ++ token) "",
  )

  -- A call for a user reaches the service, with the user's id in decimals.
  pub called :
      {W : Type 0} (doer : Doer R W) (base path : String) (serve : Handler R W)
      (reach : Reaches doer base serve) (text : String) (n : ℕ) (w : W)
      → build_url base path ≡ base ++ path
      → proxied text
          (send doer base "GET" path nil_body (more ("X-User-ID", format_int (pos n)) no_headers) w)
        ≡ (passed (serve (my_request path n) w).0, (serve (my_request path n) w).1)
  unfolding send outgoing format_int
  called {W = W} doer base path serve reach text n w url =
      let asked = λ (u : String).
        doer
          (record {
            method = "GET";
            url = u;
            header = more ("X-User-ID", format_nat n) no_headers;
            body = none;
          })
          w in
      let after = λ (o : Result (Response R) × W). proxied text (replied o.0, o.1) in
      ap (λ u. after (asked u)) url ∙ ap after (reach.served path (my_request path n) w)
