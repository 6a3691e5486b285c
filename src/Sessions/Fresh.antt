-- ===== src/Sessions/Fresh.antt =====
-- The service on a database that the migrations have just made: the table `stations` is empty, and
-- no call of the service fills it (StationRepository is made in app.go and never used).
use drive_power.Prelude.{String, List, [], ◌∷◌, ◌≡◌, refl, subst}
use drive_power.Go.{Error, Result, ok, err, Platform, Time}
use drive_power.Sessions.Model.{Session, Db, Env}
use drive_power.Sessions.Repo.{has_station, update_row, start_session, complete_session}
use drive_power.Sessions.Service.{
  Service, StartInput, StopInput, stop_time, start_session_from_ocpp, stop_session_from_ocpp,
}
use drive_power.Sessions.Cases.{
  start_session_cases, complete_session_cases, completed_db, start_session_from_ocpp_cases,
  stop_session_from_ocpp_cases,
}
use drive_power.Sessions.Steps.{Call, start, stop, expires, step, run}

module _ {R : Type 0} where
  abbrev pub IsFresh : Db R → Type 0
  IsFresh db = (db.stations ≡ []) × (db.rows ≡ [])

  completed_db-IsFresh :
      (env : Env) (t : String) (end_time : Time) (energy : R) (status : String) (db : Db R)
      → IsFresh db
      → IsFresh (completed_db env t end_time energy status db)
  unfolding update_row
  completed_db-IsFresh env t end_time energy status db (s, r) = (s, rw r refl)

module _ {R : Type 0} ⦃p : Platform R⦄ where
  abbrev IsRefused : Result (Session R) × Db R → Type 0
  IsRefused (ok s, db) = ⊥
  IsRefused (err e, db) = IsFresh db

  start_session-IsRefused :
      (env : Env) (s : Session R) (db : Db R) → IsFresh db → IsRefused (start_session env s db)
  start_session-IsRefused env s db fresh =
      start_session_cases IsRefused env s db (λ _. fresh) (λ _. fresh)
        (λ known. absurd (unfold has_station in cc (fresh.0)))

  pub start-refused :
      (env : Env) (input : StartInput) (svc : Service R)
      → IsFresh svc.db
      → (e : Error) × ((start_session_from_ocpp env input svc).0 ≡ err e)
        × IsFresh (start_session_from_ocpp env input svc).1.db
  start-refused env input svc fresh =
      start_session_from_ocpp_cases (λ out. (e : Error) × (out.0 ≡ err e) × IsFresh out.1.db) env
        input svc
        (λ e db q. (e, refl, subst IsRefused q (start_session-IsRefused env _ svc.db fresh)))
        (λ s db q. absurd (subst IsRefused q (start_session-IsRefused env _ svc.db fresh)))

  stop-IsFresh :
      (env : Env) (input : StopInput R) (svc : Service R)
      → IsFresh svc.db
      → IsFresh (stop_session_from_ocpp env input svc).1.db
  stop-IsFresh env input svc fresh =
      stop_session_from_ocpp_cases (λ out. IsFresh out.1.db) env input svc
        (λ e db q. subst (λ out. IsFresh out.1) q completes)
        (λ db q. subst (λ out. IsFresh out.1) q completes)
    where
      completes :
          IsFresh
            (complete_session env input.transaction_id
              (stop_time env input)
              input.energy_kwh
              "completed"
              svc.db).1
      completes =
          complete_session_cases (λ out. IsFresh out.1) env input.transaction_id
            (stop_time env input) input.energy_kwh "completed" svc.db (λ _. fresh)
            (λ _. completed_db-IsFresh env _ _ _ _ svc.db fresh)
            (completed_db-IsFresh env _ _ _ _ svc.db fresh)

  step-IsFresh : (c : Call R) (svc : Service R) → IsFresh svc.db → IsFresh (step c svc).db
  unfolding step
  step-IsFresh (start env input) svc fresh = (start-refused env input svc fresh).2
  step-IsFresh (stop env input) svc fresh = stop-IsFresh env input svc fresh
  step-IsFresh (expires k) svc fresh = fresh

  run-IsFresh : (cs : List (Call R)) (svc : Service R) → IsFresh svc.db → IsFresh (run cs svc).db
  unfolding run
  run-IsFresh [] svc fresh = fresh
  run-IsFresh (c ∷ cs) svc fresh = run-IsFresh cs (step c svc) (step-IsFresh c svc fresh)

  -- On a database with no row in `stations` and none in `charging_sessions`, after any calls of the
  -- service, with any faults: no session is stored, and every further start returns an error.
  pub fresh_database-refuses_starts :
      (cs : List (Call R)) (svc : Service R)
      → IsFresh svc.db
      → ((run cs svc).db.rows ≡ [])
        × ((env : Env) (input : StartInput)
            → (e : Error) × ((start_session_from_ocpp env input (run cs svc)).0 ≡ err e))
  fresh_database-refuses_starts cs svc fresh =
      let later = run-IsFresh cs svc fresh in
      (
        later.1,
        λ env input.
            let (e, refused, _) = start-refused env input (run cs svc) later in (e, refused),
      )
