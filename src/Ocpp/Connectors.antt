-- ===== src/Ocpp/Connectors.antt =====
-- What the state of the stations says of a station and of a connector after the handlers.
use drive_power.Prelude.{
  ℤ, pos, String, true, Option, none, some, ◌≡◌, ◌≢◌, refl, ap, ◌&&◌, ◌∙◌, arith, inl, inr,
  Bool-cases, if-other, ◌==◌, if-same, string_eq, int_eq, ltb_ℤ, if◌then◌else◌, lookup, insert,
  lookup-insert, lookup-insert_self,
}
use drive_power.Go.{Platform}
use drive_power.Ocpp.Stations.{
  StationState, StationRuntimeState, or_new, update_station, update_connector, status_of_station,
  status_of_connector, status_in, connector_in,
}
use drive_power.Ocpp.Messages.{
  StatusNotificationRequest, StartTransactionRequest, StopTransactionRequest,
}
use drive_power.Ocpp.Model.{Server, Env, Deps}
use drive_power.Ocpp.Handlers.{notified, or_available, status_changed, charging, started, stopped}

lookup-update_station :
    (id status : String) (s : StationState)
    → lookup id (update_station id status s)
      ≡ some (record (or_new (lookup id s)) { status = status })
unfolding update_station
lookup-update_station id status s = lookup-insert_self id _ s

lookup-update_connector :
    (id : String) (d : ℤ) (status : String) (s : StationState)
    → lookup id (update_connector id d status s)
      ≡ some (record (or_new (lookup id s)) {
        connectors = insert d status (or_new (lookup id s)).connectors;
      })
unfolding update_connector
lookup-update_connector id d status s = lookup-insert_self id _ s

update_station_self :
    (id status : String) (s : StationState)
    → status_of_station id (update_station id status s) ≡ some status
update_station_self id status s = ap status_in (lookup-update_station id status s)

-- A new station has no connectors.
or_new-connector :
    (c : ℤ) (o : Option StationRuntimeState) → lookup c (or_new o).connectors ≡ connector_in c o
or_new-connector c none = unfold lookup in refl
or_new-connector c (some st) = refl

update_station-connector :
    (id status : String) (c : ℤ) (s : StationState)
    → status_of_connector id c (update_station id status s) ≡ status_of_connector id c s
update_station-connector id status c s =
    ap (connector_in c) (lookup-update_station id status s) ∙ or_new-connector c (lookup id s)

update_connector_self :
    (id : String) (d c : ℤ) (status : String) (s : StationState)
    → status_of_connector id c (update_connector id d status s)
      ≡ (if d == c then some status else status_of_connector id c s)
update_connector_self id d c status s =
    ap (connector_in c) (lookup-update_connector id d status s)
    ∙ lookup-insert d c status (or_new (lookup id s)).connectors
    ∙ ap (λ o. if d == c then some status else o) (or_new-connector c (lookup id s))

or_new-status :
    (o : Option StationRuntimeState) (old : String)
    → status_in o ≡ some old
    → some (or_new o).status ≡ some old
or_new-status none old q = ground (arith, q)
or_new-status (some st) old q = q

update_connector-station :
    (id : String) (d : ℤ) (status old : String) (s : StationState)
    → status_of_station id s ≡ some old
    → status_of_station id (update_connector id d status s) ≡ some old
update_connector-station id d status old s known =
    ap status_in (lookup-update_connector id d status s) ∙ or_new-status (lookup id s) old known

-- A station or connector that an operation is not about.
update_station-other :
    (id j status : String) (s : StationState)
    → id ≢ j
    → lookup j (update_station id status s) ≡ lookup j s
unfolding update_station
update_station-other id j status s other = lookup-insert id j _ s ∙ if-other id j _ _ other

update_connector-other :
    (id j : String) (d : ℤ) (status : String) (s : StationState)
    → id ≢ j
    → lookup j (update_connector id d status s) ≡ lookup j s
unfolding update_connector
update_connector-other id j d status s other = lookup-insert id j _ s ∙ if-other id j _ _ other

-- The states after a status notification: the station `id` has the status, so has its connector `d`
-- where `d` is positive, and every other connector of it and every other station is as before.
abbrev pub IsRecorded : String → ℤ → String → StationState → StationState → Type 0
IsRecorded id d status states states' =
    (status_of_station id states' ≡ some status)
    × ((c : ℤ)
        → status_of_connector id c states'
          ≡ (if ltb_ℤ (pos 0) d && (d == c) then some status else status_of_connector id c states))
    × ((j : String) → id ≢ j → lookup j states' ≡ lookup j states)

notified-IsRecorded :
    (id : String) (d : ℤ) (status : String) (states : StationState)
    → IsRecorded id d status states (notified id d status states)
notified-IsRecorded id d status states = elim (Bool-cases (ltb_ℤ (pos 0) d)) [
  | inl e ↦ rw e (
    update_connector-station id d status status states' (update_station_self id status states),
    λ c.
        update_connector_self id d c status states'
        ∙ ap (λ o. if d == c then some status else o) (update_station-connector id status c states),
    λ j other.
        update_connector-other id j d status states' other
        ∙ update_station-other id j status states other,
  )
  | inr e ↦ rw e (
    update_station_self id status states,
    λ c. update_station-connector id status c states,
    λ j other. update_station-other id j status states other,
  )
]
  where
    states' : StationState
    states' = update_station id status states

module _ {R W : Type 0} ⦃p : Platform R⦄ where
  -- A status notification is recorded, whether the database fails or not: the station has the status that
  -- it gives, and "Available" where it gives none; so has the connector that it names, where its
  -- number is positive; every other connector of the station, and every other station, is as before.
  pub status-IsRecorded :
      (env : Env) (id : String) (req : StatusNotificationRequest) (s : Server R W)
      → IsRecorded id req.connector_id
          (or_available req.connector_status)
          s.stations
          (status_changed env id req s).stations
  unfolding status_changed
  status-IsRecorded env id req s =
      notified-IsRecorded id req.connector_id (or_available req.connector_status) s.stations

  -- After a transaction started at a connector with a positive number, and was stopped, the station is
  -- recorded as "Available" and the connector still as "Charging".
  pub connector_stays_charging :
      (deps : Deps R W) (env env' : Env) (id : String) (req : StartTransactionRequest)
      (req' : StopTransactionRequest) (s : Server R W)
      → ltb_ℤ (pos 0) req.connector_id ≡ true
      → (let states = (stopped deps env' id req' (started deps env id req s)).stations in
          (status_of_station id states ≡ some "Available")
          × (status_of_connector id req.connector_id states ≡ some "Charging"))
  unfolding stopped started
  connector_stays_charging deps env env' id req req' s positive =
      let states = charging id req.connector_id s.stations in
      (
        update_station_self id "Available" states,
        update_station-connector id "Available" req.connector_id states
            ∙ rw positive (
                update_connector_self id req.connector_id req.connector_id "Charging" s.stations
                ∙ if-same {A = ℤ} req.connector_id req.connector_id _ _ refl),
      )
