-- ===== src/Sessions/Handlers.antt =====
-- backend/services/sessions-service/internal/http: the handlers and the router.
use drive_power.Prelude.{pos, String, List, [], ◌∷◌, Assoc, ◌==◌, string_eq, if◌then◌else◌}
use drive_power.Go.{
  Result, ok, err, ◌>>=◌, Platform, Json, null, int, float, str, time, arr, obj, Items, nil, cons,
  end, field, get, fields_of, as_int64, as_float, as_string, as_time, Response, Handler, write_json,
  write_error, method, mux, decode_body, header_of, parse_int, Time,
}
use drive_power.Sessions.Model.{Session, Env}
use drive_power.Sessions.Service.{
  Service, StartInput, StopInput, start_session_from_ocpp, stop_session_from_ocpp,
  sessions_for_user, active_sessions,
}

module _ {R : Type 0} where
  -- sessionStartRequest
  unfoldable pub decode_start : Json R → Result StartInput
  decode_start j = do
    fs ← fields_of j
    user ← as_int64 (get "user_id" fs)
    station ← as_string (get "station_id" fs)
    connector ← as_int64 (get "connector_id" fs)
    transaction ← as_string (get "transaction_id" fs)
    start ← as_time (get "start_time" fs)
    ok (record {
      user_id = user;
      station_id = station;
      connector_id = connector;
      transaction_id = transaction;
      start_time = start;
    })

module _ {R : Type 0} ⦃p : Platform R⦄ where
  -- sessionStopRequest
  unfoldable pub decode_stop : Json R → Result (StopInput R)
  decode_stop j = do
    fs ← fields_of j
    transaction ← as_string (get "transaction_id" fs)
    stop ← as_time (get "end_time" fs)
    energy ← as_float (get "energy_kwh" fs)
    ok (record { transaction_id = transaction; end_time = stop; energy_kwh = energy })

  abbrev pub json_time : Time → Json R
  json_time t = time (p.format_time t) t

  -- The tags of models.Session.
  unfoldable pub session_json : Session R → Json R
  session_json s = obj (
      field "id" (int s.id) (
        field "user_id" (int s.user_id) (
          field "station_id" (str s.station_id) (
            field "connector_id" (int s.connector_id) (
              field "status" (str s.status) (
                field "start_time" (json_time s.start_time) (
                  field "end_time" (json_time s.end_time) (
                    field "energy_kwh" (float s.energy_kwh) (
                      field "transaction_id" (str s.transaction) (
                        field "created_at" (json_time s.created_at)
                          (field "updated_at" (json_time s.updated_at) end)))))))))))

  unfoldable pub session_items : List (Session R) → Items R
  session_items [] = nil
  session_items (s ∷ ss) = cons (session_json s) (session_items ss)

  -- A slice to which no row was appended is nil, which is written as null.
  unfoldable pub sessions_json : List (Session R) → Json R
  sessions_json [] = obj (field "sessions" null end)
  sessions_json (s ∷ ss) = obj (field "sessions" (arr (session_items (s ∷ ss))) end)

  unfoldable pub started_reply : Result (Session R) → Response R
  started_reply (ok s) =
      write_json 202 (obj (field "status" (str "ok") (field "session_id" (int s.id) end)))
  started_reply (err e) = write_error 500 "failed to start session"

  unfoldable pub stopped_reply : Result (Unit {0}) → Response R
  stopped_reply (ok _) = write_json 202 (obj (field "status" (str "ok") end))
  stopped_reply (err e) = write_error 500 "failed to stop session"

  unfoldable pub listed_reply : Result (List (Session R)) → String → Response R
  listed_reply (ok ss) text = write_json 200 (sessions_json ss)
  listed_reply (err e) text = write_error 500 text

  unfoldable pub handle_session_start : Env → Handler R (Service R)
  handle_session_start env req svc = elim (decode_body decode_start req.body) [
    | err e ↦ (write_error 400 "invalid json", svc)
    | ok input ↦
        if input.transaction_id == ""
        then (write_error 400 "transaction_id is required", svc)
        else (let (started, svc') = start_session_from_ocpp env input svc in
            (started_reply started, svc'))
  ]

  unfoldable pub handle_session_stop : Env → Handler R (Service R)
  handle_session_stop env req svc = elim (decode_body decode_stop req.body) [
    | err e ↦ (write_error 400 "invalid json", svc)
    | ok input ↦
        if input.transaction_id == ""
        then (write_error 400 "transaction_id is required", svc)
        else (let (stopped, svc') = stop_session_from_ocpp env input svc in
            (stopped_reply stopped, svc'))
  ]

  unfoldable pub sessions_me : Env → Handler R (Service R)
  sessions_me env req svc =
      let user_text = header_of "X-User-ID" req in
      if user_text == ""
      then (write_error 401 "missing user id header", svc)
      else elim (parse_int user_text) [
        | err e ↦ (write_error 400 "invalid user id", svc)
        | ok user ↦
            (listed_reply (sessions_for_user env user (pos 50) svc) "failed to fetch sessions", svc)
      ]

  unfoldable pub sessions_active : Env → Handler R (Service R)
  sessions_active env req svc =
      (listed_reply (active_sessions env (pos 50) svc) "failed to fetch active sessions", svc)

  unfoldable pub health : Handler R (Service R)
  health req svc = (write_json 200 (obj (field "status" (str "ok") end)), svc)

  unfoldable pub routes : Env → Assoc String (Handler R (Service R))
  routes env =
      ("/sessions/me", method "GET" (sessions_me env))
      ∷ ("/sessions/active", method "GET" (sessions_active env))
      ∷ ("/internal/ocpp/session-start", method "POST" (handle_session_start env))
      ∷ ("/internal/ocpp/session-stop", method "POST" (handle_session_stop env))
      ∷ ("/health", method "GET" health)
      ∷ []

  unfoldable pub router : Env → Handler R (Service R)
  router env = mux (routes env)
