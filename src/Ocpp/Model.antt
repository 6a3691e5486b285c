-- ===== src/Ocpp/Model.antt =====
-- The state of the OCPP server, and what it depends on: backend/services/ocpp-server/internal/models,
-- migrations, and the parts that internal/app/app.go wires together.
use drive_power.Prelude.{ℕ, String, List, Option, Assoc}
use drive_power.Go.{Error, Result, Time, Json, Request, Response}
use drive_power.Ocpp.Stations.{StationState}
use drive_power.Ocpp.Transactions.{TransactionStore}

-- A row of charging_stations.
pub record Station : Type 0 where
  pub id : String
  pub vendor : String
  pub model : String
  pub firmware_version : String
  pub last_heartbeat : Time
  pub status : String
  pub created_at : Time
  pub updated_at : Time

-- A row of ocpp_messages; `payload` is the text of a frame.
pub record LogRow (R : Type 0) : Type 0 where
  pub station_id : String
  pub direction : String
  pub message_type : String
  pub payload : Option (Json R)

-- `rows` is the table charging_stations by its primary key, `log` the table ocpp_messages, the newest
-- row first; `world` is the state of the services behind the network.
pub record Server (R W : Type 0) : Type 0 where
  pub stations : StationState
  pub transactions : TransactionStore
  pub rows : Assoc String Station
  pub log : List (LogRow R)
  pub world : W

-- The instant at which a message is handled, the failures of the database that it meets, and the error
-- of json.Marshal on what its handler answers, if any.
pub record Env : Type 0 where
  pub now : Time
  pub station_fault : Option ℕ
  pub log_fault : Option ℕ
  pub encode_fault : Option Error

-- The network and the base URLs of the three clients; a client that is nil is `none`. A request that
-- cannot be built or sent, or is not answered in time, gives an error.
pub record Deps (R W : Type 0) : Type 0 where
  pub send : String → Request R → W → Result (Response R) × W
  pub sessions : Option String
  pub billing : Option String
  pub telemetry : Option String
