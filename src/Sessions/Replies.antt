-- ===== src/Sessions/Replies.antt =====
-- What the HTTP endpoints of the service answer, on every branch.
use drive_power.Prelude.{
  String, ◌≡◌, ◌≢◌, refl, arith, ◌⊎◌, inl, inr, ◌==◌, ==_iff, string_eq, Bool-cases, lookup,
  if◌then◌else◌,
}
use drive_power.Go.{
  Error, Result, ok, err, Platform, int, str, obj, field, end, Request, Response, write_json,
  write_error, decode_body, AnsweredBy, mux-AnsweredBy,
}
use drive_power.Sessions.Model.{Session, Env}
use drive_power.Sessions.Service.{
  Service, StartInput, StopInput, start_session_from_ocpp, stop_session_from_ocpp,
}
use drive_power.Sessions.Handlers.{
  decode_start, decode_stop, started_reply, stopped_reply, handle_session_start,
  handle_session_stop, routes, router,
}

-- The endpoints for the OCPP server.
pub data Callback : Type 0 where
  start_route stop_route : Callback

abbrev pub path_of : Callback → String
path_of start_route = "/internal/ocpp/session-start"
path_of stop_route = "/internal/ocpp/session-stop"

module _ {R : Type 0} ⦃p : Platform R⦄ where
  -- The answer to a start notification, by what its body decodes to.
  abbrev pub StartReply : Env → Service R → Result StartInput → Response R × Service R → Type 0
  StartReply env svc (err e) out = (out.0.status ≡ 400) × (out.1 ≡ svc)
  StartReply env svc (ok input) out =
      ((input.transaction_id ≡ "") × (out.0.status ≡ 400) × (out.1 ≡ svc))
      ⊎ ((input.transaction_id ≢ "")
          × (out.1 ≡ (start_session_from_ocpp env input svc).1)
          × (((s : Session R) × ((start_session_from_ocpp env input svc).0 ≡ ok s)
                × (out.0
                    ≡ write_json 202
                        (obj (field "status" (str "ok") (field "session_id" (int s.id) end)))))
              ⊎ ((e : Error) × ((start_session_from_ocpp env input svc).0 ≡ err e)
                  × (out.0.status ≡ 500))))

  started_by :
      (env : Env) (input : StartInput) (svc : Service R)
      → StartReply env svc (ok input) (
          if input.transaction_id == ""
          then (write_error 400 "transaction_id is required", svc)
          else (
            started_reply (start_session_from_ocpp env input svc).0,
            (start_session_from_ocpp env input svc).1,
          ))
  unfolding started_reply write_error write_json
  started_by env input svc = elim (Bool-cases (input.transaction_id == "")) [
    | inl e ↦ rw e (inl ((==_iff _ _).0 e, refl, refl))
    | inr e ↦ rw e (
        inr (
          ground (arith, ==_iff input.transaction_id ""),
          refl,
          answered (start_session_from_ocpp env input svc).0,
        ))
  ]
    where
      answered :
          (out : Result (Session R))
          → ((s : Session R) × (out ≡ ok s)
              × (started_reply out
                  ≡ write_json 202
                      (obj (field "status" (str "ok") (field "session_id" (int s.id) end)))))
            ⊎ ((e : Error) × (out ≡ err e) × ((started_reply out).status ≡ 500))
      answered (ok s) = inl (s, refl, refl)
      answered (err e) = inr (e, refl, refl)

  handle_session_start-StartReply :
      (env : Env) (req : Request R) (svc : Service R)
      → StartReply env svc (decode_body decode_start req.body) (handle_session_start env req svc)
  unfolding handle_session_start
  handle_session_start-StartReply env req svc = go (decode_body decode_start req.body) refl
    where
      go :
          (out : Result StartInput)
          → decode_body decode_start req.body ≡ out
          → StartReply env svc out (handle_session_start env req svc)
      go (err e) q = rw (q, handle_session_start) (unfold write_error write_json in (refl, refl))
      go (ok input) q = rw (q, handle_session_start) (started_by env input svc)

  -- The answer to a stop notification, by what its body decodes to.
  abbrev pub StopReply : Env → Service R → Result (StopInput R) → Response R × Service R → Type 0
  StopReply env svc (err e) out = (out.0.status ≡ 400) × (out.1 ≡ svc)
  StopReply env svc (ok input) out =
      ((input.transaction_id ≡ "") × (out.0.status ≡ 400) × (out.1 ≡ svc))
      ⊎ ((input.transaction_id ≢ "")
          × (out.1 ≡ (stop_session_from_ocpp env input svc).1)
          × ((((stop_session_from_ocpp env input svc).0 ≡ ok tt) × (out.0.status ≡ 202))
              ⊎ ((e : Error) × ((stop_session_from_ocpp env input svc).0 ≡ err e)
                  × (out.0.status ≡ 500))))

  stopped_by :
      (env : Env) (input : StopInput R) (svc : Service R)
      → StopReply env svc (ok input) (
          if input.transaction_id == ""
          then (write_error 400 "transaction_id is required", svc)
          else (
            stopped_reply (stop_session_from_ocpp env input svc).0,
            (stop_session_from_ocpp env input svc).1,
          ))
  unfolding stopped_reply write_error write_json
  stopped_by env input svc = elim (Bool-cases (input.transaction_id == "")) [
    | inl e ↦ rw e (inl ((==_iff _ _).0 e, refl, refl))
    | inr e ↦ rw e (
        inr (
          ground (arith, ==_iff input.transaction_id ""),
          refl,
          answered (stop_session_from_ocpp env input svc).0,
        ))
  ]
    where
      answered :
          (out : Result (Unit {0}))
          → ((out ≡ ok tt) × ((stopped_reply {R = R} out).status ≡ 202))
            ⊎ ((e : Error) × (out ≡ err e) × ((stopped_reply {R = R} out).status ≡ 500))
      answered (ok _) = inl (refl, refl)
      answered (err e) = inr (e, refl, refl)

  handle_session_stop-StopReply :
      (env : Env) (req : Request R) (svc : Service R)
      → StopReply env svc (decode_body decode_stop req.body) (handle_session_stop env req svc)
  unfolding handle_session_stop
  handle_session_stop-StopReply env req svc = go (decode_body decode_stop req.body) refl
    where
      go :
          (out : Result (StopInput R))
          → decode_body decode_stop req.body ≡ out
          → StopReply env svc out (handle_session_stop env req svc)
      go (err e) q = rw (q, handle_session_stop) (unfold write_error write_json in (refl, refl))
      go (ok input) q = rw (q, handle_session_stop) (stopped_by env input svc)

  -- The answer at an endpoint.
  abbrev pub ReplyAt : Env → Request R → Service R → Callback → Response R × Service R → Type 0
  ReplyAt env req svc start_route out =
      AnsweredBy "POST" (StartReply env svc (decode_body decode_start req.body)) req svc out
  ReplyAt env req svc stop_route out =
      AnsweredBy "POST" (StopReply env svc (decode_body decode_stop req.body)) req svc out

  -- POST /internal/ocpp/session-start and POST /internal/ocpp/session-stop answer 400 and change
  -- nothing where the body does not decode or has no transaction id; else they make the start or the
  -- stop, and answer 202, a start with the id of the session, where that succeeds and 500 where it
  -- fails. Any other method is answered 405, and changes nothing.
  pub session_callbacks :
      (env : Env) (req : Request R) (svc : Service R) (at : Callback)
      → req.path ≡ path_of at
      → ReplyAt env req svc at (router env req svc)
  unfolding router routes lookup
  session_callbacks env req svc start_route path =
      mux-AnsweredBy "POST" (StartReply env svc (decode_body decode_start req.body)) (routes env)
        (handle_session_start env) req svc (rw path refl)
        (handle_session_start-StartReply env req svc)
  session_callbacks env req svc stop_route path =
      mux-AnsweredBy "POST" (StopReply env svc (decode_body decode_stop req.body)) (routes env)
        (handle_session_stop env) req svc (rw path refl) (handle_session_stop-StopReply env req svc)
