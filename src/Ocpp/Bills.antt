-- ===== src/Ocpp/Bills.antt =====
-- What the other services hear of a transaction, from its start over its meter values to its stops.
use drive_power.Prelude.{
  [], ◌∷◌, ℤ, pos, String, true, false, none, some, ◌≡◌, ◌≢◌, refl, ◌∙◌, inl, inr, Option-cases, ap,
  if-same, if-other, ◌==◌, string_eq, int_eq, ltb_ℤ, if◌then◌else◌, lookup-insert, lookup-delete,
}
use drive_power.Prelude.Int.{sub64}
use drive_power.Go.{Result, Platform, Request, int, str, float, time, obj, field, end}
use drive_power.Ocpp.Transactions.{set, get, remove}
use drive_power.Ocpp.Messages.{StartTransactionRequest, StopTransactionRequest, MeterValuesRequest}
use drive_power.Ocpp.Model.{Server, Env, Deps}
use drive_power.Ocpp.Clients.{notify_session_stop, notify_meter_value, meter_body, post}
use drive_power.Ocpp.Handlers.{
  transaction_of, create_session, started, stop_energy, complete_session, bill_session, stopped,
  forward_meter, metered,
}

module _ {R W : Type 0} ⦃p : Platform R⦄ (deps : Deps R W) where
  -- The energy of a transaction between two counters, in kWh.
  abbrev pub energy_between : ℤ → ℤ → R
  energy_between start stop =
      if ltb_ℤ start stop
      then p.div (p.of_int (sub64 stop start)) (p.of_int (pos 1000))
      else p.of_int (pos 0)

  -- After the start of a transaction, the store gives its session and its counter for the id that the
  -- start was answered with, and what it gave before for any other id.
  pub started-transactions :
      (env : Env) (id : String) (req : StartTransactionRequest) (s : Server R W) (j : String)
      → get j (started deps env id req s).transactions ≡ (
          if transaction_of env id req == j
          then some (record {
            session_id = (create_session deps id req (transaction_of env id req) s.world).0;
            meter_start = req.meter_start;
          })
          else get j s.transactions)
  unfolding started get set
  started-transactions env id req s j = lookup-insert (transaction_of env id req) j _ s.transactions

  -- After a stop of a transaction the store has nothing for its id, and what it had for any other id.
  pub stopped-transactions :
      (env : Env) (id : String) (req : StopTransactionRequest) (s : Server R W) (j : String)
      → get j (stopped deps env id req s).transactions
        ≡ (if req.transaction_id == j then none else get j s.transactions)
  unfolding stopped get remove
  stopped-transactions env id req s j = lookup-delete req.transaction_id j s.transactions

  bill_session_cases :
      (session : ℤ) (energy : R) (w : W)
      → ((base : String)
          → ltb_ℤ (pos 0) session ≡ true
          → deps.billing ≡ some base
          → bill_session deps session energy w
            ≡ (notify_session_stop deps base
                (record { session_id = session; user_id = pos 0; energy_kwh = energy })
                w).1)
        × (ltb_ℤ (pos 0) session ≡ false → bill_session deps session energy w ≡ w)
  unfolding bill_session
  bill_session_cases session energy w = (
    λ base live client. rw (client, live) refl,
    λ dead. elim (Option-cases deps.billing) [
      | inl none_q ↦ rw none_q refl
      | inr (base, q) ↦ rw (q, dead) refl
    ],
  )

  -- What a stop of an unknown transaction does to the world.
  stopped-unknown :
      (env : Env) (id : String) (req : StopTransactionRequest) (s : Server R W)
      → get req.transaction_id s.transactions ≡ none
      → (stopped deps env id req s).world ≡ complete_session deps env req (p.of_int (pos 0)) s.world
  unfolding stopped stop_energy
  stopped-unknown env id req s unknown = rw unknown ((bill_session_cases (pos 0) _ _).1 refl)

  -- A stop of a transaction right after another stop of it tells the sessions service an energy of 0,
  -- and tells the billing service nothing.
  pub stopped_again :
      (env env' : Env) (id id' : String) (req req' : StopTransactionRequest) (s : Server R W)
      → req'.transaction_id ≡ req.transaction_id
      → (stopped deps env' id' req' (stopped deps env id req s)).world
        ≡ complete_session deps env' req' (p.of_int (pos 0)) (stopped deps env id req s).world
  stopped_again env env' id id' req req' s same =
      stopped-unknown env' id' req' (stopped deps env id req s) (
        ap (λ t. get t (stopped deps env id req s).transactions) same
        ∙ stopped-transactions env id req s req.transaction_id
        ∙ if-same req.transaction_id req.transaction_id none (get req.transaction_id s.transactions)
            refl)

  -- The request that tells the telemetry service a reading.
  abbrev pub meter_request : ℤ → MeterValuesRequest R → Request R
  meter_request session req = record {
    method = "POST";
    path = "/internal/ocpp/meter-values";
    header = ("Content-Type", "application/json") ∷ [];
    body = some (
        obj (
          field "session_id" (int session) (
            field "station_id" (str req.station_id) (
              field "connector_id" (int req.connector_id) (
                field "meter_value" (float req.meter_value) (
                  field "unit" (str "kWh") (
                    field "timestamp" (time (p.format_time req.timestamp) req.timestamp) end)))))));
  }

  forwarded :
      (session : ℤ) (req : MeterValuesRequest R) (w : W) (base : String)
      → deps.telemetry ≡ some base
      → base ≢ ""
      → forward_meter deps session req w ≡ (deps.send base (meter_request session req) w).1
  unfolding forward_meter notify_meter_value post meter_body
  forwarded session req w base client named =
      rw (client, forward_meter)
        (ap (λ (o : Result (Unit {0}) × W). o.1) (if-other {A = String} base "" _ _ named))

  -- Meter values of the transaction that was just started, where the telemetry service has a URL: it is
  -- sent the reading with the station, the connector, the time and the session that the sessions
  -- service gave, where that is not 0. Where it is 0 they change nothing.
  pub meter_values_forwarded :
      (env : Env) (id : String) (req : StartTransactionRequest) (req' : MeterValuesRequest R)
      (s : Server R W) (base : String)
      → req'.transaction_id ≡ transaction_of env id req
      → deps.telemetry ≡ some base
      → base ≢ ""
      → (let session = (create_session deps id req (transaction_of env id req) s.world).0 in
          let s' = started deps env id req s in
          (session ≢ pos 0
            → metered deps req' s'
              ≡ record s' { world = (deps.send base (meter_request session req') s'.world).1 })
          × (session ≡ pos 0 → metered deps req' s' ≡ s'))
  unfolding metered
  meter_values_forwarded env id req req' s base same client url =
      let session = (create_session deps id req (transaction_of env id req) s.world).0 in
      let s' = started deps env id req s in
      let known : get req'.transaction_id s'.transactions
          ≡ some (record { session_id = session; meter_start = req.meter_start }) =
        ap (λ t. get t s'.transactions) same
        ∙ started-transactions env id req s (transaction_of env id req)
        ∙ if-same (transaction_of env id req) (transaction_of env id req) _
            (get (transaction_of env id req) s.transactions) refl in
      (
        λ live.
            rw (known, metered) (if-other {A = ℤ} _ _ _ _ live)
            ∙ ap (λ (w : W). record s' { world = w })
                (forwarded session req' s'.world base client url),
        λ dead. rw (known, metered) (if-same {A = ℤ} _ _ _ _ dead),
      )
