-- ===== src/Sessions/Starts.antt =====
-- What a start leaves in the table `charging_sessions`.
use drive_power.Prelude.{
  ℕ, pos, String, List, ◌∷◌, Option, none, some, true, false, ◌≡◌, ◌≢◌, refl, subst, ap, arith,
  if◌then◌else◌, ◌==◌, ==_iff, ==_refl, string_eq, nat_eq, length,
}
use drive_power.Go.{Result, ok, err, Platform, is_zero}
use drive_power.Sessions.Model.{Session, Row, Db, Env}
use drive_power.Sessions.Repo.{find_row, update_row, restarted, inserted, returning, start_session}
use drive_power.Sessions.Table.{find_row-update_row, length-update_row}
use drive_power.Sessions.Service.{
  Service, StartInput, new_session, save_entry, cache_entry, start_session_from_ocpp,
}
use drive_power.Sessions.Cases.{
  upsert_row_cases, start_session_cases, start_session_from_ocpp_cases,
}
use drive_power.Sessions.Invariant.{restarted-KeepsKeys}

module _ {R : Type 0} ⦃p : Platform R⦄ where
  -- The row that a start writes, from the row that was there.
  abbrev pub stored_row : Env → Session R → ℕ → Option (Row R) → Row R
  stored_row env s n none = inserted env s n
  stored_row env s n (some r) = restarted env s r

  abbrev pub stored_rows : Env → Session R → Db R → Option (Row R) → List (Row R)
  stored_rows env s db none = inserted env s db.next_id ∷ db.rows
  stored_rows env s db (some r) = update_row s.transaction (restarted env s) db.rows

  abbrev StoresOnSuccess : Env → Session R → Db R → Result (Session R) × Db R → Type 0
  StoresOnSuccess env s db (err e, db') = Unit
  StoresOnSuccess env s db (ok s', db') =
      (s' ≡ returning s (stored_row env s db.next_id (find_row s.transaction db.rows)))
      × (db'.rows ≡ stored_rows env s db (find_row s.transaction db.rows))

  start_session-StoresOnSuccess :
      (env : Env) (s : Session R) (db : Db R) → StoresOnSuccess env s db (start_session env s db)
  start_session-StoresOnSuccess env s db =
      start_session_cases (StoresOnSuccess env s db) env s db (λ _. tt) (λ _. tt)
        λ _.
          upsert_row_cases (StoresOnSuccess env s db) env s db (λ e. rw e (refl, refl))
            (λ r e. rw e (refl, refl))

  abbrev asked : Env → StartInput → Session R
  asked env input = new_session env input

  -- The row of the transaction before the call.
  abbrev pub row_before : StartInput → Service R → Option (Row R)
  row_before input svc = find_row input.transaction_id svc.db.rows

  abbrev IsStarted : Env → StartInput → Service R → Result (Session R) × Service R → Type 0
  IsStarted env input svc (err e, svc') = Unit
  IsStarted env input svc (ok s, svc') =
      (s
        ≡ returning (asked env input)
            (stored_row env (asked env input) svc.db.next_id (row_before input svc)))
      × (svc'.db.rows ≡ stored_rows env (asked env input) svc.db (row_before input svc))
      × (svc'.store ≡ save_entry env (cache_entry input s.id) svc.store)

  start-IsStarted :
      (env : Env) (input : StartInput) (svc : Service R)
      → IsStarted env input svc (start_session_from_ocpp env input svc)
  unfolding new_session
  start-IsStarted env input svc =
      start_session_from_ocpp_cases (IsStarted env input svc) env input svc (λ e db q. tt)
        (λ s db q.
          let stores =
            subst (StoresOnSuccess env (asked env input) svc.db) q
              (start_session-StoresOnSuccess env (asked env input) svc.db) in
          (stores.0, stores.1, refl))

  -- A start that succeeds: the session that it returns, and the table and the cache after it.
  pub start_session_ok :
      (env : Env) (input : StartInput) (svc : Service R) (s : Session R) (svc' : Service R)
      → start_session_from_ocpp env input svc ≡ (ok s, svc')
      → IsStarted env input svc (ok s, svc')
  start_session_ok env input svc s svc' h =
      subst (IsStarted env input svc) h (start-IsStarted env input svc)

  pub find_row-stored_rows :
      (env : Env) (s : Session R) (db : Db R) (k : String) (o : Option (Row R))
      → find_row s.transaction db.rows ≡ o
      → find_row k (stored_rows env s db o)
        ≡ (if s.transaction == k then some (stored_row env s db.next_id o) else find_row k db.rows)
  unfolding inserted find_row
  find_row-stored_rows env s db k none h = refl
  find_row-stored_rows env s db k (some r) h = ground (
    arith,
    find_row-update_row s.transaction k (restarted env s) db.rows (restarted-KeepsKeys env s),
    ==_iff s.transaction k,
  )

  -- The row of the transaction after a start that succeeded, and what else the start left.
  pub record IsOpened (env : Env) (input : StartInput) (svc : Service R) (s : Session R)
      (svc' : Service R) : Type 0 where
    pub row : Row R
    pub found : find_row input.transaction_id svc'.db.rows ≡ some row
    pub active : row.status ≡ "active"
    pub user : row.user_id ≡ input.user_id
    pub station : row.station_id ≡ input.station_id
    pub connector : row.connector_id ≡ input.connector_id
    pub started : is_zero input.start_time ≡ false → row.start_time ≡ input.start_time
    pub stamped : is_zero input.start_time ≡ true → row.start_time ≡ env.now
    pub same_id : s.id ≡ pos row.id
    pub others :
        (k : String) → input.transaction_id ≢ k → find_row k svc'.db.rows ≡ find_row k svc.db.rows

  stored_row-IsOpened :
      (env : Env) (input : StartInput) (n : ℕ) (o : Option (Row R)) (svc svc' : Service R)
      (s : Session R)
      → find_row input.transaction_id svc'.db.rows
        ≡ some (stored_row env (new_session env input) n o)
      → s ≡ returning (new_session env input) (stored_row env (new_session env input) n o)
      → ((k : String) → input.transaction_id ≢ k → find_row k svc'.db.rows ≡ find_row k svc.db.rows)
      → IsOpened env input svc s svc'
  unfolding new_session inserted restarted
  stored_row-IsOpened env input n none svc svc' s found same others = record {
    row = stored_row env (new_session env input) n none;
    found = found;
    active = refl;
    user = refl;
    station = refl;
    connector = refl;
    started = λ e. rw e refl;
    stamped = λ e. rw e refl;
    same_id = ap (λ (x : Session R). x.id) same;
    others = others;
  }
  stored_row-IsOpened env input n (some r) svc svc' s found same others = record {
    row = stored_row env (new_session env input) n (some r);
    found = found;
    active = refl;
    user = refl;
    station = refl;
    connector = refl;
    started = λ e. rw e refl;
    stamped = λ e. rw e refl;
    same_id = ap (λ (x : Session R). x.id) same;
    others = others;
  }

  found_after :
      (env : Env) (input : StartInput) (svc : Service R) (k : String)
      → find_row k (stored_rows env (asked env input) svc.db (row_before input svc)) ≡ (
          if input.transaction_id == k
          then some (stored_row env (asked env input) svc.db.next_id (row_before input svc))
          else find_row k svc.db.rows)
  unfolding new_session
  found_after env input svc k = find_row-stored_rows env (asked env input) svc.db k _ refl

  -- A start that succeeds leaves, under the transaction id of its input, a row that is active, has
  -- the user, station and connector of the input, its start time (the current time if the input has
  -- none) and the id of the returned session; the rows of all other transactions stay.
  pub start_session-IsOpened :
      (env : Env) (input : StartInput) (svc : Service R) (s : Session R) (svc' : Service R)
      → start_session_from_ocpp env input svc ≡ (ok s, svc')
      → IsOpened env input svc s svc'
  start_session-IsOpened env input svc s svc' h =
      let (same, rows, store) = start_session_ok env input svc s svc' h in
      stored_row-IsOpened env input svc.db.next_id (row_before input svc) svc svc' s
        (rw rows (rw found_after (rw ==_refl refl))) same
        (λ k ne. rw rows (rw found_after (ground (arith, ==_iff input.transaction_id k))))

  -- A second start of a transaction that succeeds returns the id of the row that is there; the row
  -- keeps its id, its creation time, its end time and its energy, and the table its length.
  pub restart-keeps_row :
      (env : Env) (input : StartInput) (svc : Service R) (r : Row R) (s : Session R)
      (svc' : Service R)
      → find_row input.transaction_id svc.db.rows ≡ some r
      → start_session_from_ocpp env input svc ≡ (ok s, svc')
      → (s.id ≡ pos r.id)
        × (s.created_at ≡ r.created_at)
        × (length svc'.db.rows ≡ length svc.db.rows)
        × ((r' : Row R) × (find_row input.transaction_id svc'.db.rows ≡ some r')
            × (r'.id ≡ r.id)
            × (r'.created_at ≡ r.created_at)
            × (r'.end_time ≡ r.end_time)
            × (r'.energy_kwh ≡ r.energy_kwh))
  unfolding restarted
  restart-keeps_row env input svc r s svc' there h =
      let (same, rows, store) = start_session_ok env input svc s svc' h in
      let same_r : s ≡ returning (asked env input) (restarted env (asked env input) r) =
        rw there at same in
      (
        ap (λ (x : Session R). x.id) same_r,
        ap (λ (x : Session R). x.created_at) same_r,
        rw (rows, there) (length-update_row _ _ svc.db.rows),
        (
          restarted env (asked env input) r,
          rw rows (rw found_after (rw ==_refl (rw there refl))),
          refl,
          refl,
          refl,
          refl,
        ),
      )
