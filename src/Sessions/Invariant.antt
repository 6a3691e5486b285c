-- ===== src/Sessions/Invariant.antt =====
-- The table stays well formed under every call, whatever the faults.
use drive_power.Prelude.{String, List, [], ◌∷◌, true, ◌≡◌, refl, subst, arith, All, string_eq}
use drive_power.Go.{Platform, Time}
use drive_power.Sessions.Model.{Session, Db, Env}
use drive_power.Sessions.Repo.{
  has_station, restarted, completed, inserted, upsert_row, start_session, complete_session,
}
use drive_power.Sessions.Table.{
  IsUnique, IsBelow, HasStation, KeepsKeys, IsBelow-le, update_row-IsBelow, update_row-IsUnique,
  All-update_row,
}
use drive_power.Sessions.Service.{Service, stop_time, new_session}
use drive_power.Sessions.Cases.{
  upsert_row_cases, start_session_cases, complete_session_cases, completed_db,
  start_session_from_ocpp_cases, stop_session_from_ocpp_cases,
}
use drive_power.Sessions.Steps.{Call, start, stop, expires, step, run}

-- Transaction ids are distinct, ids are distinct and below the next one, and the station of every
-- row is in the table `stations`.
pub record IsValid {R : Type 0} (db : Db R) : Type 0 where
  pub unique : IsUnique db.rows
  pub below : IsBelow db.next_id db.rows
  pub placed : All (HasStation db.stations) db.rows

module _ {R : Type 0} where
  pub restarted-KeepsKeys : (env : Env) (s : Session R) → KeepsKeys (restarted env s)
  unfolding restarted
  restarted-KeepsKeys env s r = (refl, refl)

  pub completed-KeepsKeys :
      (env : Env) (t : Time) (energy : R) (status : String)
      → KeepsKeys (completed env t energy status)
  unfolding completed
  completed-KeepsKeys env t energy status r = (refl, refl)

module _ {R : Type 0} ⦃p : Platform R⦄ where
  upsert_row-IsValid :
      (env : Env) (s : Session R) (db : Db R)
      → has_station s.station_id db.stations ≡ true
      → IsValid db
      → IsValid (upsert_row env s db).1
  upsert_row-IsValid env s db known v =
      upsert_row_cases (λ out. IsValid out.1) env s db
        (λ e. record {
          unique = unfold inserted in (e, v.unique);
          below = unfold inserted in (omega arith, v.below);
          placed = unfold inserted in (known, v.placed);
        })
        (λ r e. record {
          unique = update_row-IsUnique _ _ db.rows (restarted-KeepsKeys env s) v.unique;
          below =
              IsBelow-le db.next_id _ _
                (update_row-IsBelow _ _ db.next_id db.rows (restarted-KeepsKeys env s) v.below)
                (omega arith);
          placed = All-update_row _ _ _ db.rows (unfold restarted in λ _ _. known) v.placed;
        })

  start_session-IsValid :
      (env : Env) (s : Session R) (db : Db R) → IsValid db → IsValid (start_session env s db).1
  start_session-IsValid env s db v =
      start_session_cases (λ out. IsValid out.1) env s db (λ _. v)
        (λ _. record {
          unique = v.unique;
          below = IsBelow-le db.next_id _ db.rows v.below (omega arith);
          placed = v.placed;
        })
        (λ known. upsert_row-IsValid env s db known v)

  complete_session-IsValid :
      (env : Env) (t : String) (end_time : Time) (energy : R) (status : String) (db : Db R)
      → IsValid db
      → IsValid (complete_session env t end_time energy status db).1
  complete_session-IsValid env t end_time energy status db v =
      complete_session_cases (λ out. IsValid out.1) env t end_time energy status db (λ _. v)
        (λ _. updated) updated
    where
      keeps : KeepsKeys (completed env end_time energy status)
      keeps = completed-KeepsKeys env end_time energy status

      updated : IsValid (completed_db env t end_time energy status db)
      updated = record {
        unique = update_row-IsUnique t _ db.rows keeps v.unique;
        below = update_row-IsBelow t _ db.next_id db.rows keeps v.below;
        placed = All-update_row _ t _ db.rows (unfold completed in λ r h. h) v.placed;
      }

  step-IsValid : (c : Call R) (svc : Service R) → IsValid svc.db → IsValid (step c svc).db
  unfolding step
  step-IsValid (start env input) svc v =
      start_session_from_ocpp_cases (λ out. IsValid out.1.db) env input svc
        (λ e db q. rw q at (start_session-IsValid env (new_session env input) svc.db v))
        (λ s db q. rw q at (start_session-IsValid env (new_session env input) svc.db v))
  step-IsValid (stop env input) svc v =
      stop_session_from_ocpp_cases (λ out. IsValid out.1.db) env input svc
        (λ e db q.
          subst (λ out. IsValid out.1) q
            (complete_session-IsValid env input.transaction_id (stop_time env input)
              input.energy_kwh "completed" svc.db v))
        (λ db q.
          subst (λ out. IsValid out.1) q
            (complete_session-IsValid env input.transaction_id (stop_time env input)
              input.energy_kwh "completed" svc.db v))
  step-IsValid (expires k) svc v = v

  -- Any calls of the service, with any faults, keep a valid database valid: transaction ids are unique,
  -- the ids of the rows are distinct and below the next one, and every session is at a known station.
  pub run-IsValid :
      (cs : List (Call R)) (svc : Service R) → IsValid svc.db → IsValid (run cs svc).db
  unfolding run
  run-IsValid [] svc v = v
  run-IsValid (c ∷ cs) svc v = run-IsValid cs (step c svc) (step-IsValid c svc v)
