-- ===== src/Sessions/Mine.antt =====
-- What GET /sessions/me answers for the user that the header X-User-ID names.
use drive_power.Prelude.{
  ℤ, pos, List, ◌≡◌, ◌≢◌, refl, arith, ◌⊎◌, inl, inr, ==_iff, string_eq, lookup,
}
use drive_power.Go.{
  Error, Result, ok, err, Platform, Request, Response, write_json, write_error, method, header_of,
  parse_int, mux-found, method_cases,
}
use drive_power.Sessions.Model.{Session, Env}
use drive_power.Sessions.Repo.{get_sessions_by_user}
use drive_power.Sessions.Service.{Service, sessions_for_user}
use drive_power.Sessions.History.{IsHistory, get_sessions_by_user-IsHistory}
use drive_power.Sessions.Handlers.{sessions_json, listed_reply, sessions_me, routes, router}

module _ {R : Type 0} ⦃p : Platform R⦄ where
  -- The user's history, 200 and the newest 50 sessions of that user; or 500 where the listing fails.
  abbrev pub MySessions : Env → ℤ → Service R → Response R → Type 0
  MySessions env id svc out =
      ((ss : List (Session R)) × (get_sessions_by_user env id (pos 50) svc.db ≡ ok ss)
        × IsHistory id 50 svc.db ss
        × (out ≡ write_json 200 (sessions_json ss)))
      ⊎ ((e : Error) × (get_sessions_by_user env id (pos 50) svc.db ≡ err e) × (out.status ≡ 500))

  listed-MySessions :
      (env : Env) (id : ℤ) (svc : Service R) (out : Result (List (Session R)))
      → get_sessions_by_user env id (pos 50) svc.db ≡ out
      → MySessions env id svc (listed_reply out "failed to fetch sessions")
  unfolding listed_reply write_error write_json
  listed-MySessions env id svc (ok ss) q = inl (
    ss,
    q,
    get_sessions_by_user-IsHistory env id (pos 50) 50 svc.db ss (inl (omega arith, refl)) q,
    refl,
  )
  listed-MySessions env id svc (err e) q = inr (e, q, refl)

  answered :
      (env : Env) (req : Request R) (svc : Service R) (id : ℤ)
      → header_of "X-User-ID" req ≢ ""
      → parse_int (header_of "X-User-ID" req) ≡ ok id
      → sessions_me env req svc
        ≡ (listed_reply (sessions_for_user env id (pos 50) svc) "failed to fetch sessions", svc)
  unfolding sessions_me
  answered env req svc id named parsed =
      ground (arith, parsed, ==_iff (header_of "X-User-ID" req) "")

  pub sessions_me-MySessions :
      (env : Env) (req : Request R) (svc : Service R) (id : ℤ)
      → req.path ≡ "/sessions/me"
      → req.method ≡ "GET"
      → header_of "X-User-ID" req ≢ ""
      → parse_int (header_of "X-User-ID" req) ≡ ok id
      → MySessions env id svc (router env req svc).0 × ((router env req svc).1 ≡ svc)
  unfolding router routes lookup sessions_for_user
  sessions_me-MySessions env req svc id path get named parsed =
      let routed = mux-found (routes env) (method "GET" (sessions_me env)) req svc (rw path refl) in
      let same = (method_cases "GET" (sessions_me env) req svc).0 get in
      let answer = answered env req svc id named parsed in
      rw (routed, same, answer) (listed-MySessions env id svc _ refl, refl)
