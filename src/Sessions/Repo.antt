-- ===== src/Sessions/Repo.antt =====
-- backend/services/sessions-service/internal/repository: each query is a function on the tables.
use drive_power.Prelude.{
  ℕ, ℤ, pos, negsuc, ◌+◌, String, List, [], ◌∷◌, Option, none, some, Bool, false, ◌||◌, ◌==◌,
  string_eq, int_eq, nat_eq, if◌then◌else◌, ltb, length, select,
}
use drive_power.Sql.{query_desc}
use drive_power.Go.{Result, ok, err, ◌>>=◌, no_rows, null_scan, foreign_key, driver, Time}
use drive_power.Prelude.Int.{is_int32}
use drive_power.Go.{Platform}
use drive_power.Sessions.Model.{Session, Station, Row, Db, Env}

-- `if limit <= 0 { limit = 50 }`
abbrev pub row_limit : ℤ → ℕ
row_limit (pos n) = if ltb 0 n then n else 50
row_limit (negsuc n) = 50

-- The foreign key of `charging_sessions` into `stations`.
unfoldable pub has_station : String → List Station → Bool
has_station k [] = false
has_station k (s ∷ rest) = s.id == k || has_station k rest

module _ {R : Type 0} where
  -- The row of a transaction id, which is UNIQUE.
  unfoldable pub find_row : String → List (Row R) → Option (Row R)
  find_row t [] = none
  find_row t (r ∷ rs) = if r.transaction == t then some r else find_row t rs

  -- UPDATE ... WHERE transaction_id = t
  unfoldable pub update_row : String → (Row R → Row R) → List (Row R) → List (Row R)
  update_row t f [] = []
  update_row t f (r ∷ rs) = (if r.transaction == t then f r else r) ∷ update_row t f rs

  -- DO UPDATE SET of StartSession
  unfoldable pub restarted : Env → Session R → Row R → Row R
  restarted env s r = record r {
    user_id = s.user_id;
    station_id = s.station_id;
    connector_id = s.connector_id;
    status = s.status;
    start_time = s.start_time;
    updated_at = env.db_now;
  }

  -- SET of CompleteSession
  unfoldable pub completed : Env → Time → R → String → Row R → Row R
  completed env end_time energy status r = record r {
    end_time = some end_time;
    energy_kwh = energy;
    status = status;
    updated_at = env.db_now;
  }

module _ {R : Type 0} ⦃p : Platform R⦄ where
  -- VALUES of StartSession, with the defaults of the columns that it leaves out.
  unfoldable pub inserted : Env → Session R → ℕ → Row R
  inserted env s n = record {
    id = n;
    user_id = s.user_id;
    station_id = s.station_id;
    connector_id = s.connector_id;
    status = s.status;
    start_time = s.start_time;
    end_time = none;
    energy_kwh = p.of_int (pos 0);
    transaction = s.transaction;
    created_at = env.db_now;
    updated_at = env.db_now;
  }

  -- RETURNING id, created_at, updated_at
  abbrev pub returning : Session R → Row R → Session R
  returning s r = record s { id = pos r.id; created_at = r.created_at; updated_at = r.updated_at }

  -- INSERT ... ON CONFLICT (transaction_id) DO UPDATE. The sequence of ids advances also when the
  -- row is there, and when the foreign key refuses it.
  unfoldable pub upsert_row : Env → Session R → Db R → Result (Session R) × Db R
  upsert_row env s db = elim (find_row s.transaction db.rows) [
    | none ↦ (
      ok (returning s (inserted env s db.next_id)),
      record db { rows = inserted env s db.next_id ∷ db.rows; next_id = db.next_id + 1 },
    )
    | some r ↦ (
      ok (returning s (restarted env s r)),
      record db {
        rows = update_row s.transaction (restarted env s) db.rows;
        next_id = db.next_id + 1;
      },
    )
  ]

  unfoldable pub start_session : Env → Session R → Db R → Result (Session R) × Db R
  start_session env s db = elim env.db_fault [
    | some e ↦ (err e, db)
    | none ↦
        if is_int32 s.connector_id
        then (if has_station s.station_id db.stations
            then upsert_row env s db
            else (err foreign_key, record db { next_id = db.next_id + 1 }))
        else (err (driver 22003), db)
  ]

module _ {R : Type 0} where
  unfoldable pub complete_session :
      Env → String → Time → R → String → Db R → Result (Unit {0}) × Db R
  complete_session env t end_time energy status db = elim env.db_fault [
    | some e ↦ (err e, db)
    | none ↦
        let affected = length (select (λ r. r.transaction == t) db.rows) in
        let db' = record db {
          rows = update_row t (completed env end_time energy status) db.rows;
        } in
        elim env.affected_fault [
          | some e ↦ (err e, db')
          | none ↦ (if affected == 0 then err no_rows else ok tt, db')
        ]
  ]

  -- rows.Scan: a NULL cannot be read into the time.Time of Session.EndTime.
  unfoldable pub scan_row : Row R → Result (Session R)
  scan_row r = elim r.end_time [
    | none ↦ err null_scan
    | some t ↦ ok (record {
      id = pos r.id;
      user_id = r.user_id;
      station_id = r.station_id;
      connector_id = r.connector_id;
      status = r.status;
      start_time = r.start_time;
      end_time = t;
      energy_kwh = r.energy_kwh;
      transaction = r.transaction;
      created_at = r.created_at;
      updated_at = r.updated_at;
    })
  ]

  -- The loop over rows.Next, which stops at the first row that does not scan.
  unfoldable pub scan_rows : List (Row R) → Result (List (Session R))
  scan_rows [] = ok []
  scan_rows (r ∷ rs) = let rest = scan_rows rs in (scan_row r >>= λ s. rest >>= λ ss. ok (s ∷ ss))

  abbrev pub belongs_to : ℤ → Row R → Bool
  belongs_to user r = r.user_id == user

  abbrev pub is_active : Row R → Bool
  is_active r = r.status == "active"

  unfoldable pub get_sessions_by_user : Env → ℤ → ℤ → Db R → Result (List (Session R))
  get_sessions_by_user env user limit db = elim env.db_fault [
    | some e ↦ err e
    | none ↦ scan_rows (query_desc (λ r. r.start_time) (belongs_to user) (row_limit limit) db.rows)
  ]

  unfoldable pub get_active_sessions : Env → ℤ → Db R → Result (List (Session R))
  get_active_sessions env limit db = elim env.db_fault [
    | some e ↦ err e
    | none ↦ scan_rows (query_desc (λ r. r.start_time) is_active (row_limit limit) db.rows)
  ]

-- StationRepository.Upsert
unfoldable pub set_station : Env → Station → List Station → List Station
set_station env s [] = record s { created_at = env.db_now; updated_at = env.db_now } ∷ []
set_station env s (x ∷ rest) =
    if x.id == s.id
    then record x { name = s.name; location = s.location; updated_at = env.db_now } ∷ rest
    else x ∷ set_station env s rest

unfoldable pub upsert_station : {R : Type 0} → Env → Station → Db R → Result (Unit {0}) × Db R
upsert_station env s db = elim env.db_fault [
  | some e ↦ (err e, db)
  | none ↦ (ok tt, record db { stations = set_station env s db.stations })
]
