-- ===== src/Ocpp/Stations.antt =====
-- backend/services/ocpp-server/internal/service/station_state.go. Each method holds the mutex from its
-- start to its end, so it is one step.
use drive_power.Prelude.{
  ℤ, String, [], ◌∷◌, Option, none, some, Assoc, lookup, insert, string_eq, int_eq,
}

pub record StationRuntimeState : Type 0 where
  pub status : String
  pub connectors : Assoc ℤ String

-- The map `stations` of StationState; a ConnectorState is its status.
abbrev pub StationState : Type 0
StationState = Assoc String StationRuntimeState

abbrev pub or_new : Option StationRuntimeState → StationRuntimeState
or_new none = record { status = ""; connectors = [] }
or_new (some state) = state

unfoldable pub update_station : String → String → StationState → StationState
update_station station status s =
    insert station (record (or_new (lookup station s)) { status = status }) s

unfoldable pub update_connector : String → ℤ → String → StationState → StationState
update_connector station connector status s =
    let state = or_new (lookup station s) in
    insert station (record state { connectors = insert connector status state.connectors }) s

-- Snapshot copies both levels of maps entry by entry.
unfoldable pub copy_connectors : Assoc ℤ String → Assoc ℤ String → Assoc ℤ String
copy_connectors [] copy = copy
copy_connectors ((k, c) ∷ rest) copy = copy_connectors rest (insert k c copy)

unfoldable pub copy_stations : StationState → StationState → StationState
copy_stations [] copy = copy
copy_stations ((k, st) ∷ rest) copy =
    copy_stations rest
      (insert k (record { status = st.status; connectors = copy_connectors st.connectors [] }) copy)

unfoldable pub snapshot : StationState → StationState
snapshot s = copy_stations s []

-- What is recorded of a station and of a connector.
abbrev pub status_in : Option StationRuntimeState → Option String
status_in none = none
status_in (some state) = some state.status

abbrev pub connector_in : ℤ → Option StationRuntimeState → Option String
connector_in c none = none
connector_in c (some state) = lookup c state.connectors

abbrev pub status_of_station : String → StationState → Option String
status_of_station station s = status_in (lookup station s)

abbrev pub status_of_connector : String → ℤ → StationState → Option String
status_of_connector station c s = connector_in c (lookup station s)
