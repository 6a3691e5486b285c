-- ===== src/Sessions/Service.antt =====
-- backend/services/sessions-service/internal/service/sessions_service.go
use drive_power.Prelude.{ℤ, pos, String, List, Option, none, some, if◌then◌else◌}
use drive_power.Go.{Result, ok, err, Platform, Time, zero_time, is_zero}
use drive_power.Sessions.Model.{Session, Db, Env}
use drive_power.Sessions.Repo.{
  start_session, complete_session, get_sessions_by_user, get_active_sessions,
}
use drive_power.Sessions.Cache.{ActiveSession, Store, save, remove}

-- SessionsService; `store` is nil where there is no cache. The logger is not modelled.
pub record Service (R : Type 0) : Type 0 where
  pub db : Db R
  pub store : Option Store

pub record StartInput : Type 0 where
  pub user_id : ℤ
  pub station_id : String
  pub connector_id : ℤ
  pub transaction_id : String
  pub start_time : Time

pub record StopInput (R : Type 0) : Type 0 where
  pub transaction_id : String
  pub end_time : Time
  pub energy_kwh : R

-- The session that a start asks for; the fields that it leaves out are zero.
unfoldable pub new_session : {R : Type 0} ⦃p : Platform R⦄ → Env → StartInput → Session R
new_session ⦃p⦄ env input = record {
  id = pos 0;
  user_id = input.user_id;
  station_id = input.station_id;
  connector_id = input.connector_id;
  status = "active";
  start_time = if is_zero input.start_time then env.now else input.start_time;
  end_time = zero_time;
  energy_kwh = p.of_int (pos 0);
  transaction = input.transaction_id;
  created_at = zero_time;
  updated_at = zero_time;
}

abbrev pub cache_entry : StartInput → ℤ → ActiveSession
cache_entry input id = record {
  session_id = id;
  transaction_id = input.transaction_id;
  station_id = input.station_id;
  connector_id = input.connector_id;
  user_id = input.user_id;
}

-- The calls of the cache, where there is one; an error of the cache is logged and dropped.
abbrev pub save_entry : Env → ActiveSession → Option Store → Option Store
save_entry env a none = none
save_entry env a (some c) = some (save env a c).1

abbrev pub remove_entry : Env → String → Option Store → Option Store
remove_entry env t none = none
remove_entry env t (some c) = some (remove env t c).1

module _ {R : Type 0} where
  -- StartSessionFromOCPP after the call of the repository.
  unfoldable pub cache_started :
      Env → StartInput → Option Store → Result (Session R) × Db R → Result (Session R) × Service R
  cache_started env input store (err e, db) = (err e, record { db = db; store = store })
  cache_started env input store (ok s, db) =
      (ok s, record { db = db; store = save_entry env (cache_entry input s.id) store })

  -- StopSessionFromOCPP after the call of the repository.
  unfoldable pub uncache_stopped :
      Env → String → Option Store → Result (Unit {0}) × Db R → Result (Unit {0}) × Service R
  uncache_stopped env t store (err e, db) = (err e, record { db = db; store = store })
  uncache_stopped env t store (ok _, db) =
      (ok tt, record { db = db; store = remove_entry env t store })

  abbrev pub stop_time : Env → StopInput R → Time
  stop_time env input = if is_zero input.end_time then env.now else input.end_time

  unfoldable pub stop_session_from_ocpp :
      Env → StopInput R → Service R → Result (Unit {0}) × Service R
  stop_session_from_ocpp env input svc = uncache_stopped env input.transaction_id svc.store (
      complete_session env input.transaction_id (stop_time env input) input.energy_kwh "completed"
        svc.db)

  unfoldable pub sessions_for_user : Env → ℤ → ℤ → Service R → Result (List (Session R))
  sessions_for_user env user limit svc = get_sessions_by_user env user limit svc.db

  unfoldable pub active_sessions : Env → ℤ → Service R → Result (List (Session R))
  active_sessions env limit svc = get_active_sessions env limit svc.db

module _ {R : Type 0} ⦃p : Platform R⦄ where
  unfoldable pub start_session_from_ocpp :
      Env → StartInput → Service R → Result (Session R) × Service R
  start_session_from_ocpp env input svc =
      cache_started env input svc.store (start_session env (new_session env input) svc.db)
