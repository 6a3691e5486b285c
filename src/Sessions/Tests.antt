-- ===== src/Sessions/Tests.antt =====
-- Runs of the sessions service on a small database.
use drive_power.Prelude.{
  ℕ, ℤ, pos, String, List, [], ◌∷◌, none, some, ◌≡◌, ◌≢◌, refl, length, string_eq, int_eq,
  if◌then◌else◌, ◌==◌,
}
use drive_power.Go.{Result, ok, err, no_rows, driver}
use drive_power.Go.Sample.{sample_platform}
use drive_power.Sessions.Model.{Session, Station, Row, Env}
use drive_power.Sessions.Repo.{
  find_row, start_session, has_station, upsert_row, inserted, update_row, restarted,
}
use drive_power.Sessions.Cache.{Store, load}
use drive_power.Sessions.Service.{
  Service, cache_started, StartInput, StopInput, new_session, start_session_from_ocpp,
  stop_session_from_ocpp,
}
use drive_power.Sessions.Steps.{start, stop, expires, run}
use drive_power.Sessions.Invariant.{IsValid, run-IsValid}
use drive_power.Sessions.Starts.{IsOpened, start_session-IsOpened, restart-keeps_row}
use drive_power.Sessions.Stops.{stop_session_exact}
use drive_power.Sessions.CacheView.{load-start, load-stop}

abbrev pub fine : Env
fine = record {
  now = 100;
  db_now = 101;
  db_fault = none;
  affected_fault = none;
  cache_fault = none;
}

abbrev pub cache : Store
cache = record { client = []; ttl = 3600 }

abbrev pub row : Row ℤ
row = record {
  id = 1;
  user_id = pos 7;
  station_id = "S1";
  connector_id = pos 1;
  status = "active";
  start_time = 50;
  end_time = none;
  energy_kwh = pos 0;
  transaction = "T1";
  created_at = 50;
  updated_at = 50;
}

abbrev pub stations : List Station
stations = (record { id = "S1"; name = ""; location = ""; created_at = 0; updated_at = 0 }) ∷ []

abbrev pub empty : Service ℤ
empty = record { db = record { rows = []; next_id = 1; stations = stations }; store = some cache }

abbrev busy : Service ℤ
busy = record {
  db = record { rows = row ∷ []; next_id = 2; stations = stations };
  store = some cache;
}

abbrev pub unfilled : Service ℤ
unfilled = record { db = record { rows = []; next_id = 1; stations = [] }; store = some cache }

abbrev pub starting : StartInput
starting = record {
  user_id = pos 7;
  station_id = "S1";
  connector_id = pos 1;
  transaction_id = "T1";
  start_time = 60;
}

abbrev stopping : StopInput ℤ
stopping = record { transaction_id = "T1"; end_time = 90; energy_kwh = pos 5 }

abbrev pub opened : Result (Session ℤ) × Service ℤ
opened = start_session_from_ocpp fine starting empty

abbrev pub session : ℕ → Session ℤ
session created = record {
  id = pos 1;
  user_id = pos 7;
  station_id = "S1";
  connector_id = pos 1;
  status = "active";
  start_time = 60;
  end_time = 31622400000000000;
  energy_kwh = pos 0;
  transaction = "T1";
  created_at = created;
  updated_at = 101;
}

pub opened_ok : start_session_from_ocpp fine starting empty ≡ (ok (session 101), opened.1)
unfolding start_session_from_ocpp new_session cache_started start_session has_station upsert_row
    find_row inserted
opened_ok = refl

restarted_ok :
    start_session_from_ocpp fine starting busy
    ≡ (ok (session 50), (start_session_from_ocpp fine starting busy).1)
unfolding start_session_from_ocpp new_session cache_started start_session has_station upsert_row
    find_row update_row restarted
restarted_ok = refl

there : find_row "T1" busy.db.rows ≡ some row
unfolding find_row
there = refl

pub absent : find_row "T1" empty.db.rows ≡ none
unfolding find_row
absent = refl

empty-IsValid : IsValid empty.db
empty-IsValid = record { unique = tt; below = tt; placed = tt }

run-IsValid_example :
    IsValid
      (run (start fine starting ∷ stop fine stopping ∷ expires "sessions:active:T1" ∷ []) empty).db
run-IsValid_example =
    run-IsValid (start fine starting ∷ stop fine stopping ∷ expires "sessions:active:T1" ∷ []) empty
      empty-IsValid

start_session-IsOpened_example : IsOpened fine starting empty (session 101) opened.1
start_session-IsOpened_example =
    start_session-IsOpened fine starting empty (session 101) opened.1 opened_ok

abbrev reopened : Service ℤ
reopened = (start_session_from_ocpp fine starting busy).1

restart-keeps_row_run :
    ((session 50).id ≡ pos 1)
    × ((session 50).created_at ≡ 50)
    × (length reopened.db.rows ≡ 1)
    × ((r' : Row ℤ) × (find_row "T1" reopened.db.rows ≡ some r')
        × (r'.id ≡ 1)
        × (r'.created_at ≡ 50)
        × (r'.end_time ≡ none)
        × (r'.energy_kwh ≡ pos 0))
restart-keeps_row_run =
    restart-keeps_row fine starting busy row (session 50) reopened there restarted_ok

abbrev StopExact : Result (Unit {0}) × Service ℤ → Type 0
StopExact out =
    (find_row "T1" busy.db.rows ≡ none → out ≡ (err no_rows, busy))
    × ((r : Row ℤ)
        → find_row "T1" busy.db.rows ≡ some r
        → (out.0 ≡ ok tt)
          × (find_row "T1" out.1.db.rows
              ≡ some (record r {
                status = "completed";
                end_time = some 90;
                energy_kwh = pos 5;
                updated_at = 101;
              }))
          × ((k : String) → "T1" ≢ k → find_row k out.1.db.rows ≡ find_row k busy.db.rows))

stop_session_exact_example : StopExact (stop_session_from_ocpp fine stopping busy)
stop_session_exact_example = stop_session_exact fine stopping busy refl refl

load-start_run :
    (c' : Store) × (opened.1.store ≡ some c')
    × ((t : String)
        → load fine t c' ≡ (
            if "T1" == t
            then ok (record {
              session_id = pos 1;
              transaction_id = "T1";
              station_id = "S1";
              connector_id = pos 1;
              user_id = pos 7;
            })
            else load fine t cache))
load-start_run =
    load-start fine fine starting empty opened.1 (session 101) cache refl opened_ok refl refl

load-stop_run :
    (c' : Store) × ((stop_session_from_ocpp fine stopping busy).1.store ≡ some c')
    × ((t : String) → load fine t c' ≡ (if "T1" == t then err (driver 0) else load fine t cache))
load-stop_run = load-stop fine fine stopping busy row cache refl there refl refl refl refl
