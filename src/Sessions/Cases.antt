-- ===== src/Sessions/Cases.antt =====
-- The branches of each statement and call of the service, as rules for proofs about all of them.
use drive_power.Prelude.{
  ◌+◌, String, ◌∷◌, none, some, true, false, ◌≡◌, refl, arith, inl, inr, Option-cases, nat_eq,
  string_eq,
}
use drive_power.Go.{Error, Result, ok, err, Platform, Time, driver, foreign_key, no_rows}
use drive_power.Sessions.Model.{Session, Row, Db, Env}
use drive_power.Sessions.Repo.{
  has_station, find_row, update_row, restarted, completed, inserted, returning, upsert_row,
  start_session, complete_session,
}
use drive_power.Sessions.Service.{
  Service, StartInput, StopInput, new_session, cache_entry, save_entry, remove_entry, stop_time,
  cache_started, uncache_stopped, start_session_from_ocpp, stop_session_from_ocpp,
}

module _ {ℓ} {R : Type 0} ⦃p : Platform R⦄ where
  pub upsert_row_cases :
      (P : Result (Session R) × Db R → Type ℓ) (env : Env) (s : Session R) (db : Db R)
      → (find_row s.transaction db.rows ≡ none
          → P (
            ok (returning s (inserted env s db.next_id)),
            record db { rows = inserted env s db.next_id ∷ db.rows; next_id = db.next_id + 1 },
          ))
      → ((r : Row R)
          → find_row s.transaction db.rows ≡ some r
          → P (
            ok (returning s (restarted env s r)),
            record db {
              rows = update_row s.transaction (restarted env s) db.rows;
              next_id = db.next_id + 1;
            },
          ))
      → P (upsert_row env s db)
  unfolding upsert_row
  upsert_row_cases P env s db absent present =
      elim (Option-cases (find_row s.transaction db.rows)) [
        | inl e ↦ rw (e, upsert_row) (absent e)
        | inr (r, e) ↦ rw (e, upsert_row) (present r e)
      ]

  pub start_session_cases :
      (P : Result (Session R) × Db R → Type ℓ) (env : Env) (s : Session R) (db : Db R)
      → ((e : Error) → P (err e, db))
      → (has_station s.station_id db.stations ≡ false
          → P (err foreign_key, record db { next_id = db.next_id + 1 }))
      → (has_station s.station_id db.stations ≡ true → P (upsert_row env s db))
      → P (start_session env s db)
  unfolding start_session
  start_session_cases P env s db failed unplaced placed = elim (Option-cases env.db_fault) [
    | inr (e, fault) ↦ ground (arith, failed e)
    | inl fine ↦ ground (arith, failed (driver 22003))
  ]

  pub start_session_from_ocpp_cases :
      (P : Result (Session R) × Service R → Type ℓ) (env : Env) (input : StartInput)
      (svc : Service R)
      → ((e : Error) (db : Db R)
          → start_session env (new_session env input) svc.db ≡ (err e, db)
          → P (err e, record svc { db = db }))
      → ((s : Session R) (db : Db R)
          → start_session env (new_session env input) svc.db ≡ (ok s, db)
          → P (ok s, record { db = db; store = save_entry env (cache_entry input s.id) svc.store }))
      → P (start_session_from_ocpp env input svc)
  unfolding start_session_from_ocpp cache_started
  start_session_from_ocpp_cases P env input svc refused started =
      go (start_session env (new_session env input) svc.db) refl
    where
      go :
          (out : Result (Session R) × Db R)
          → start_session env (new_session env input) svc.db ≡ out
          → P (cache_started env input svc.store out)
      go (err e, db) q = refused e db q
      go (ok s, db) q = started s db q

module _ {R : Type 0} where
  abbrev pub completed_db : Env → String → Time → R → String → Db R → Db R
  completed_db env t end_time energy status db = record db {
    rows = update_row t (completed env end_time energy status) db.rows;
  }

module _ {ℓ} {R : Type 0} where
  pub complete_session_cases :
      (P : Result (Unit {0}) × Db R → Type ℓ) (env : Env) (t : String) (end_time : Time)
      (energy : R) (status : String) (db : Db R)
      → ((e : Error) → P (err e, db))
      → ((e : Error) → P (err e, completed_db env t end_time energy status db))
      → (P (ok tt, completed_db env t end_time energy status db))
      → P (complete_session env t end_time energy status db)
  unfolding complete_session
  complete_session_cases P env t end_time energy status db failed uncounted done =
      elim (Option-cases env.db_fault) [
        | inr (e, fault) ↦ ground (arith, failed e)
        | inl fine ↦ elim (Option-cases env.affected_fault) [
          | inr (e, fault) ↦ ground (arith, uncounted e)
          | inl counted ↦ ground (arith, uncounted no_rows)
        ]
      ]

  pub stop_session_from_ocpp_cases :
      (P : Result (Unit {0}) × Service R → Type ℓ) (env : Env) (input : StopInput R)
      (svc : Service R)
      → ((e : Error) (db : Db R)
          → complete_session env input.transaction_id
              (stop_time env input)
              input.energy_kwh
              "completed"
              svc.db
            ≡ (err e, db)
          → P (err e, record svc { db = db }))
      → ((db : Db R)
          → complete_session env input.transaction_id
              (stop_time env input)
              input.energy_kwh
              "completed"
              svc.db
            ≡ (ok tt, db)
          → P (ok tt, record { db = db; store = remove_entry env input.transaction_id svc.store }))
      → P (stop_session_from_ocpp env input svc)
  unfolding stop_session_from_ocpp uncache_stopped
  stop_session_from_ocpp_cases P env input svc refused stopped =
      go
        (complete_session env input.transaction_id (stop_time env input) input.energy_kwh
          "completed" svc.db)
        refl
    where
      go :
          (out : Result (Unit {0}) × Db R)
          → complete_session env input.transaction_id
              (stop_time env input)
              input.energy_kwh
              "completed"
              svc.db
            ≡ out
          → P (uncache_stopped env input.transaction_id svc.store out)
      go (err e, db) q = refused e db q
      go (ok u, db) q = stopped db q
