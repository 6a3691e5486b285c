-- ===== src/Sessions/Stops.antt =====
-- What a stop leaves in the table `charging_sessions`, and what the cache holds after each call.
use drive_power.Prelude.{
  String, none, some, ◌≡◌, ◌≢◌, refl, arith, ==_iff, ==_refl, string_eq, nat_eq,
}
use drive_power.Go.{ok, err, no_rows, Time}
use drive_power.Sessions.Model.{Row, Db, Env}
use drive_power.Sessions.Repo.{find_row, completed, complete_session}
use drive_power.Sessions.Table.{find_row-update_row, update_row-missing, affected-pos}
use drive_power.Sessions.Service.{
  Service, StopInput, stop_time, uncache_stopped, stop_session_from_ocpp,
}
use drive_power.Sessions.Cases.{completed_db}
use drive_power.Sessions.Invariant.{completed-KeepsKeys}

module _ {R : Type 0} where
  complete_session-missing :
      (env : Env) (t : String) (end_time : Time) (energy : R) (status : String) (db : Db R)
      → env.db_fault ≡ none
      → env.affected_fault ≡ none
      → find_row t db.rows ≡ none
      → complete_session env t end_time energy status db ≡ (err no_rows, db)
  unfolding complete_session
  complete_session-missing env t end_time energy status db fine counted absent =
      ground (arith, update_row-missing t (completed env end_time energy status) db.rows absent)

  pub complete_session-there :
      (env : Env) (t : String) (end_time : Time) (energy : R) (status : String) (db : Db R)
      (r : Row R)
      → env.db_fault ≡ none
      → env.affected_fault ≡ none
      → find_row t db.rows ≡ some r
      → complete_session env t end_time energy status db
        ≡ (ok tt, completed_db env t end_time energy status db)
  unfolding complete_session
  complete_session-there env t end_time energy status db r fine counted there =
      ground (arith, affected-pos t db.rows r there)

  -- A stop of a transaction that is not in the table, with no fault: the error is sql.ErrNoRows, and
  -- neither the table nor the cache changes. A stop of one that is: it succeeds, and the row becomes
  -- completed, with the end time of the input (the current time if it has none) and its energy,
  -- while the rows of all other transactions stay.
  pub stop_session_exact :
      (env : Env) (input : StopInput R) (svc : Service R)
      → env.db_fault ≡ none
      → env.affected_fault ≡ none
      → (find_row input.transaction_id svc.db.rows ≡ none
          → stop_session_from_ocpp env input svc ≡ (err no_rows, svc))
        × ((r : Row R)
            → find_row input.transaction_id svc.db.rows ≡ some r
            → let out = stop_session_from_ocpp env input svc in
              (out.0 ≡ ok tt)
              × (find_row input.transaction_id out.1.db.rows
                  ≡ some (record r {
                    status = "completed";
                    end_time = some (stop_time env input);
                    energy_kwh = input.energy_kwh;
                    updated_at = env.db_now;
                  }))
              × ((k : String)
                  → input.transaction_id ≢ k
                  → find_row k out.1.db.rows ≡ find_row k svc.db.rows))
  unfolding stop_session_from_ocpp uncache_stopped completed
  stop_session_exact env input svc fine counted = (
    λ absent. rw (complete_session-missing env _ _ _ _ svc.db fine counted absent) refl,
    λ r there. rw (complete_session-there env _ _ _ _ svc.db r fine counted there) (
      refl,
      rw (find_row-update_row t t change svc.db.rows keeps) (rw ==_refl (rw there refl)),
      λ k ne. ground (arith, find_row-update_row t k change svc.db.rows keeps, ==_iff t k),
    ),
  )
    where
      t : String
      t = input.transaction_id

      change : Row R → Row R
      change = completed env (stop_time env input) input.energy_kwh "completed"

      keeps : (x : Row R) → ((change x).transaction ≡ x.transaction) × ((change x).id ≡ x.id)
      keeps = completed-KeepsKeys env (stop_time env input) input.energy_kwh "completed"
