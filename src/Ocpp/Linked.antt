-- ===== src/Ocpp/Linked.antt =====
-- The OCPP server with the sessions service itself behind its network.
use drive_power.Prelude.{
  ℕ, pos, String, true, none, some, ◌≡◌, ◌≢◌, refl, ap, ◌∙◌, if-other, string_eq, ◌≤◌, ◌^◌, lookup,
}
use drive_power.Prelude.Int.{is_int64}
use drive_power.Go.{
  get, write_json, ok, Platform, FloatLaws, zero_time, Json, Response, method, mux,
}
use drive_power.Sessions.Model.{Session, Env}
use drive_power.Sessions.Service.{Service, StartInput, start_session_from_ocpp}
use drive_power.Sessions.Handlers.{
  decode_start, handle_session_start, started_reply, routes, router,
}
use drive_power.Sessions.Starts.{IsOpened, start_session-IsOpened}
use drive_power.Ocpp.Messages.{StartTransactionRequest}
use drive_power.Ocpp.Model.{Deps}
use drive_power.Ocpp.Clients.{
  StartSessionRequest, start_body, post_request, post_start, create_from_ocpp, created,
}
use drive_power.Ocpp.Handlers.{create_session, or_zero}
use drive_power.Ocpp.Wire.{start_understood}

-- What the sessions service makes of the start of a transaction at a station.
abbrev pub input_of : String → StartTransactionRequest → String → StartInput
input_of id req transaction = record {
  user_id = pos 0;
  station_id = id;
  connector_id = req.connector_id;
  transaction_id = transaction;
  start_time = zero_time;
}

module _ {R : Type 0} ⦃p : Platform R⦄ where
  -- The network whose only service is the sessions service, at the time of `env`.
  abbrev pub linked : Env → String → Deps R (Service R)
  linked env base = record {
    send = λ _ req svc. (ok (router env req svc).0, (router env req svc).1);
    sessions = some base;
    billing = none;
    telemetry = none;
  }

  routed :
      (env : Env) (body : Json R) (svc : Service R)
      → router env (post_request "/internal/ocpp/session-start" body) svc
        ≡ handle_session_start env (post_request "/internal/ocpp/session-start" body) svc
  unfolding router routes mux lookup method
  routed env body svc = refl

  started_by :
      (env : Env) (body : Json R) (input : StartInput) (svc svc' : Service R) (s : Session R)
      → decode_start body ≡ ok input
      → input.transaction_id ≢ ""
      → start_session_from_ocpp env input svc ≡ (ok s, svc')
      → handle_session_start env (post_request "/internal/ocpp/session-start" body) svc
        ≡ (started_reply (ok s), svc')
  unfolding handle_session_start
  started_by env body input svc svc' s decoded named started =
      rw (decoded, handle_session_start)
        (if-other {A = String} input.transaction_id "" _ _ named
          ∙ ap (λ out. (started_reply out.0, out.1)) started)

  created_id :
      (laws : FloatLaws R) (s : Session R) (n : ℕ)
      → s.id ≡ pos n
      → n ≤ 2 ^ 53
      → created (ok (started_reply {R = R} (ok s))) ≡ ok (pos n)
  unfolding started_reply write_json get
  created_id laws s n same small = rw same (ap ok (laws.to_int-of_int n small))

  create_linked :
      (env : Env) (base : String) (r : StartSessionRequest) (svc : Service R)
      (out : Response R × Service R)
      → base ≢ ""
      → router env (post_request "/internal/ocpp/session-start" (start_body r)) svc ≡ out
      → create_from_ocpp (linked env base) base r svc ≡ (created (ok out.0), out.1)
  unfolding create_from_ocpp post_start
  create_linked env base r svc out url replied =
      if-other {A = String} base "" _ _ url ∙ ap (λ o. (created (ok o.0), o.1)) replied

  -- With the sessions service behind the network: where the service makes the start, with user 0 and no
  -- start time, of a transaction that has a name, of a connector that is an int64, the OCPP server's
  -- session id is that of the session, if it is at most 2 ^ 53; and the row of the transaction is then
  -- active, at the station and connector, and of user 0.
  pub session_linked :
      (laws : FloatLaws R) (env : Env) (base id transaction : String)
      (req : StartTransactionRequest) (svc svc' : Service R) (s : Session R) (n : ℕ)
      → base ≢ ""
      → transaction ≢ ""
      → is_int64 req.connector_id ≡ true
      → start_session_from_ocpp env (input_of id req transaction) svc ≡ (ok s, svc')
      → s.id ≡ pos n
      → n ≤ 2 ^ 53
      → (create_session (linked env base) id req transaction svc ≡ (pos n, svc'))
        × ((opened : IsOpened env (input_of id req transaction) svc s svc') × (opened.row.user_id
              ≡ pos 0))
  unfolding create_session
  session_linked laws env base id transaction req svc svc' s n url named fits started same small = (
    ap or_zero (asked ∙ ap (λ o. (o, svc')) (created_id laws s n same small)),
    (let opened = start_session-IsOpened env (input_of id req transaction) svc s svc' started in
        (opened, opened.user)),
  )
    where
      r : StartSessionRequest
      r = record {
        station_id = id;
        connector_id = req.connector_id;
        transaction_id = transaction;
        meter_start = req.meter_start;
      }

      replied :
          router env (post_request "/internal/ocpp/session-start" (start_body r)) svc
          ≡ (started_reply (ok s), svc')
      replied =
          routed env (start_body r) svc
          ∙ started_by env (start_body r) (input_of id req transaction) svc svc' s
              (start_understood R r fits) named started

      asked :
          create_from_ocpp (linked env base) base r svc
          ≡ (created (ok (started_reply {R = R} (ok s))), svc')
      asked = create_linked env base r svc _ url replied
