-- ===== src/Ocpp/Completed.antt =====
-- The end of a transaction at the OCPP server, with the sessions service itself behind its network.
use drive_power.Prelude.{String, none, some, ◌≡◌, ◌≢◌, refl, ap, ◌∙◌, if-other, string_eq, lookup}
use drive_power.Go.{Result, ok, Platform, Json, Response, method, mux}
use drive_power.Sessions.Model.{Row, Env}
use drive_power.Sessions.Repo.{find_row}
use drive_power.Sessions.Service.{Service, StopInput, stop_time, stop_session_from_ocpp}
use drive_power.Sessions.Handlers.{decode_stop, handle_session_stop, routes, router}
use drive_power.Sessions.Stops.{stop_session_exact}
use drive_power.Ocpp.Messages.{StopTransactionRequest}
use drive_power.Ocpp.Model as model
use drive_power.Ocpp.Clients.{StopSessionRequest, stop_body, post_request, post, complete_from_ocpp}
use drive_power.Ocpp.Handlers.{complete_session}
use drive_power.Ocpp.Linked.{linked}
use drive_power.Ocpp.Wire.{stop_understood}

module _ {R : Type 0} ⦃p : Platform R⦄ where
  routed :
      (env : Env) (body : Json R) (svc : Service R)
      → router env (post_request "/internal/ocpp/session-stop" body) svc
        ≡ handle_session_stop env (post_request "/internal/ocpp/session-stop" body) svc
  unfolding router routes mux lookup method
  routed env body svc = refl

  stopped_by :
      (env : Env) (body : Json R) (input : StopInput R) (svc : Service R)
      → decode_stop body ≡ ok input
      → input.transaction_id ≢ ""
      → (handle_session_stop env (post_request "/internal/ocpp/session-stop" body) svc).1
        ≡ (stop_session_from_ocpp env input svc).1
  unfolding handle_session_stop
  stopped_by env body input svc decoded named =
      rw (decoded, handle_session_stop)
        (ap (λ (o : Response R × Service R). o.1)
          (if-other {A = String} input.transaction_id "" _ _ named))

  completed_by :
      (env : Env) (base : String) (r : StopSessionRequest R) (svc : Service R)
      → base ≢ ""
      → (complete_from_ocpp (linked env base) base r svc).1
        ≡ (router env (post_request "/internal/ocpp/session-stop" (stop_body r)) svc).1
  unfolding complete_from_ocpp post
  completed_by env base r svc url =
      ap (λ (o : Result (Unit {0}) × Service R). o.1) (if-other {A = String} base "" _ _ url)

  -- What the sessions service reads in the stop of a transaction, at an instant of the OCPP server.
  abbrev pub stop_input : model.Env → StopTransactionRequest → R → StopInput R
  stop_input env req energy = record {
    transaction_id = req.transaction_id;
    end_time = env.now;
    energy_kwh = energy;
  }

  -- With the sessions service behind the network, working without a fault: a stop of a transaction that
  -- has a name and a row there makes the row completed, with the energy that the OCPP server measured
  -- and its time (the service's, where that is the zero time).
  pub session_completed :
      (env : Env) (env' : model.Env) (base : String) (req : StopTransactionRequest) (energy : R)
      (svc : Service R) (row : Row R)
      → base ≢ ""
      → req.transaction_id ≢ ""
      → env.db_fault ≡ none
      → env.affected_fault ≡ none
      → find_row req.transaction_id svc.db.rows ≡ some row
      → find_row req.transaction_id (complete_session (linked env base) env' req energy svc).db.rows
        ≡ some (record row {
          status = "completed";
          end_time = some (stop_time env (stop_input env' req energy));
          energy_kwh = energy;
          updated_at = env.db_now;
        })
  unfolding complete_session
  session_completed env env' base req energy svc row url named fine counted there =
      let input = stop_input env' req energy in
      let (_, found, _) = (stop_session_exact env input svc fine counted).1 row there in
      let r : StopSessionRequest R = record {
        transaction_id = req.transaction_id;
        meter_stop = req.meter_stop;
        reason = req.reason;
        energy_kwh = energy;
        end_time = env'.now;
      } in
      let heard : complete_session (linked env base) env' req energy svc
          ≡ (stop_session_from_ocpp env input svc).1 =
        completed_by env base r svc url
        ∙ ap (λ (o : Response R × Service R). o.1) (routed env (stop_body r) svc)
        ∙ stopped_by env (stop_body r) input svc (stop_understood r) named in
      ap (λ (s : Service R). find_row req.transaction_id s.db.rows) heard ∙ found
