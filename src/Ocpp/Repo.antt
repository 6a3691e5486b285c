-- ===== src/Ocpp/Repo.antt =====
-- backend/services/ocpp-server/internal/repository: station_repo.go and ocpp_log_repo.go.
use drive_power.Prelude.{
  String, List, ◌∷◌, Option, none, some, Assoc, lookup, insert, string_eq, if◌then◌else◌,
}
use drive_power.Go.{Result, ok, err, driver, is_zero, Json}
use drive_power.Ocpp.Model.{Station, LogRow, Env}

-- The row that the INSERT proposes, and the row that it leaves where the id is taken.
abbrev pub upserted : Env → Station → Option Station → Station
upserted env station none = record station { created_at = env.now; updated_at = env.now }
upserted env station (some old) = record station {
  created_at = old.created_at;
  updated_at = env.now;
}

unfoldable pub upsert :
    Env → Station → Assoc String Station → Result (Unit {0}) × Assoc String Station
upsert env station rows =
    let stamped = record station {
      last_heartbeat = if is_zero station.last_heartbeat then env.now else station.last_heartbeat;
    } in
    elim env.station_fault [
      | some n ↦ (err (driver n), rows)
      | none ↦ (ok tt, insert station.id (upserted env stamped (lookup station.id rows)) rows)
    ]

abbrev pub with_status :
    Env → String → String → Option Station → Assoc String Station → Assoc String Station
with_status env id status none rows = rows
with_status env id status (some old) rows =
    insert id (record old { status = status; last_heartbeat = env.now; updated_at = env.now }) rows

unfoldable pub update_status :
    Env → String → String → Assoc String Station → Result (Unit {0}) × Assoc String Station
update_status env id status rows = elim env.station_fault [
  | some n ↦ (err (driver n), rows)
  | none ↦ (ok tt, with_status env id status (lookup id rows) rows)
]

-- OCPPLogRepository.Save
unfoldable pub save :
    {R : Type 0}
    → Env
    → String
    → String
    → String
    → Option (Json R)
    → List (LogRow R)
    → Result (Unit {0}) × List (LogRow R)
save env station way kind payload log = elim env.log_fault [
  | some n ↦ (err (driver n), log)
  | none ↦ (
    ok tt,
    (record { station_id = station; direction = way; message_type = kind; payload = payload })
        ∷ log,
  )
]
