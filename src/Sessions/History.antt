-- ===== src/Sessions/History.antt =====
-- What the two listings return: GetSessionsByUser and GetActiveSessions.
use drive_power.Prelude.{
  ◌==◌, ◌<◌, leb_ℤ, sym, negsuc, ℕ, ℤ, pos, List, [], ◌∷◌, none, some, true, ◌≡◌, refl, ap, subst,
  ◌∙◌, arith, ◌⊎◌, inl, inr, Option-cases, ==_iff, int_eq, string_eq, All,
}
use drive_power.Sql.{query_desc}
use drive_power.Sql.Newest.{IsNewest, query_desc-IsNewest}
use drive_power.Go.{Result, ok, err, null_scan, ◌>>=◌, Time}
use drive_power.Sessions.Model.{Session, Row, Db, Env}
use drive_power.Sessions.Repo.{scan_row, scan_rows, row_limit, belongs_to, get_sessions_by_user}

-- As many rows as a limit allows: 50 where it is not positive.
abbrev pub Allows : ℤ → ℕ → Type 0
Allows limit n = ((0 < n) × (limit ≡ pos n)) ⊎ ((leb_ℤ limit (pos 0) ≡ true) × (n ≡ 50))

Allows-row_limit : (limit : ℤ) (n : ℕ) → Allows limit n → row_limit limit ≡ n
Allows-row_limit limit n (inl (some_rows, same)) = rw same (ground (arith, some_rows))
Allows-row_limit (pos k) n (inr (none_left, same)) = ground (arith, none_left, same)
Allows-row_limit (negsuc k) n (inr (none_left, same)) = sym same

module _ {R : Type 0} where
  -- A session shows its row, whose end time is set.
  abbrev pub Shows : Session R → Row R → Type 0
  Shows s r =
      (s.id ≡ pos r.id)
      × (s.user_id ≡ r.user_id)
      × (s.transaction ≡ r.transaction)
      × (s.status ≡ r.status)
      × (s.start_time ≡ r.start_time)
      × (r.end_time ≡ some s.end_time)
      × (s.energy_kwh ≡ r.energy_kwh)
      × (s.station_id ≡ r.station_id)
      × (s.connector_id ≡ r.connector_id)
      × (s.created_at ≡ r.created_at)
      × (s.updated_at ≡ r.updated_at)

  abbrev pub ShowsAll : List (Session R) → List (Row R) → Type 0
  ShowsAll [] [] = Unit
  ShowsAll (s ∷ ss) (r ∷ rs) = Shows s r × ShowsAll ss rs
  ShowsAll _ _ = ⊥

  -- A row with no end time.
  abbrev pub IsOpen : Row R → Type 0
  IsOpen r = r.end_time ≡ none

  abbrev pub HasOpen : List (Row R) → Type 0
  HasOpen [] = ⊥
  HasOpen (r ∷ rs) = IsOpen r ⊎ HasOpen rs

  abbrev ScanOf : List (Row R) → Result (List (Session R)) → Type 0
  ScanOf rows (ok ss) = ShowsAll ss rows
  ScanOf rows (err e) = (e ≡ null_scan) × HasOpen rows

  scan_row_ok :
      (r : Row R) (t : Time)
      → r.end_time ≡ some t
      → (s : Session R) × (scan_row r ≡ ok s) × Shows s r
  unfolding scan_row
  scan_row_ok r t e = (
    record {
      id = pos r.id;
      user_id = r.user_id;
      station_id = r.station_id;
      connector_id = r.connector_id;
      status = r.status;
      start_time = r.start_time;
      end_time = t;
      energy_kwh = r.energy_kwh;
      transaction = r.transaction;
      created_at = r.created_at;
      updated_at = r.updated_at;
    },
    rw (e, scan_row) refl,
    (refl, refl, refl, refl, refl, e, refl, refl, refl, refl, refl),
  )

  scan_row-null : (r : Row R) → IsOpen r → scan_row r ≡ err null_scan
  unfolding scan_row
  scan_row-null r e = rw (e, scan_row) refl

  ScanOf-cons :
      (s : Session R) (r : Row R) (rs : List (Row R)) (out : Result (List (Session R)))
      → Shows s r
      → ScanOf rs out
      → ScanOf (r ∷ rs) (out >>= λ ss. ok (s ∷ ss))
  ScanOf-cons s r rs (ok ss) shows h = (shows, h)
  ScanOf-cons s r rs (err e) shows (same, h) = (same, inr h)

  scan_rows-ScanOf : (rows : List (Row R)) → ScanOf rows (scan_rows rows)
  unfolding scan_rows
  scan_rows-ScanOf [] = tt
  scan_rows-ScanOf (r ∷ rs) = elim (Option-cases r.end_time) [
    | inl e ↦ rw (scan_row-null r e) (refl, inl e)
    | inr (t, e) ↦
        let (s, scanned, shows) = scan_row_ok r t e in
        rw scanned (ScanOf-cons s r rs (scan_rows rs) shows (scan_rows-ScanOf rs))
  ]

  not_open : (ss : List (Session R)) (rs : List (Row R)) → ShowsAll ss rs → ¬ HasOpen rs
  not_open [] [] shows h = h
  not_open (s ∷ ss) (r ∷ rs) (shows, more) (inl e) = cc (shows.5)
  not_open (s ∷ ss) (r ∷ rs) (shows, more) (inr h) = not_open ss rs more h
  not_open [] (r ∷ rs) shows h = absurd shows
  not_open (s ∷ ss) [] shows h = h

  pub scan_rows-open : (rows : List (Row R)) → HasOpen rows → scan_rows rows ≡ err null_scan
  scan_rows-open rows h = go (scan_rows rows) (scan_rows-ScanOf rows)
    where
      go : (out : Result (List (Session R))) → ScanOf rows out → out ≡ err null_scan
      go (ok ss) shows = absurd (not_open ss rows shows h)
      go (err e) (same, _) = ap err same

  All-shown :
      (user : ℤ) (ss : List (Session R)) (rs : List (Row R))
      → ShowsAll ss rs
      → All (λ r. belongs_to user r ≡ true) rs
      → All (λ (s : Session R). s.user_id ≡ user) ss
  All-shown user [] [] shows h = tt
  All-shown user (s ∷ ss) (r ∷ rs) (shows, more) (own, h) =
      (shows.1 ∙ (==_iff r.user_id user).0 own, All-shown user ss rs more h)
  All-shown user [] (r ∷ rs) shows h = absurd shows
  All-shown user (s ∷ ss) [] shows h = absurd shows

  -- What a listing of a user's sessions returned: the newest rows of the user, newest first, each
  -- with its end time set.
  pub record IsHistory (user : ℤ) (n : ℕ) (db : Db R) (ss : List (Session R)) : Type 0 where
    pub found : List (Row R)
    pub newest :
        IsNewest (λ (r : Row R). r.start_time) (λ (r : Row R). r.user_id == user) n db.rows found
    pub shown : ShowsAll ss found
    pub owned : All (λ (s : Session R). s.user_id ≡ user) ss

  users_query : ℤ → ℤ → Db R → List (Row R)
  users_query user limit db =
      query_desc (λ r. r.start_time) (belongs_to user) (row_limit limit) db.rows

  scanned_of_ok :
      (env : Env) (user limit : ℤ) (db : Db R) (ss : List (Session R))
      → get_sessions_by_user env user limit db ≡ ok ss
      → scan_rows (users_query user limit db) ≡ ok ss
  unfolding get_sessions_by_user users_query
  scanned_of_ok env user limit db ss h = elim (Option-cases env.db_fault) [
    | inr (e, fault) ↦ absurd (ground arith)
    | inl fine ↦ ground arith
  ]

  listed-IsHistory :
      (env : Env) (user limit : ℤ) (db : Db R) (ss : List (Session R))
      → get_sessions_by_user env user limit db ≡ ok ss
      → IsHistory user (row_limit limit) db ss
  unfolding users_query
  listed-IsHistory env user limit db ss h =
      let found = users_query user limit db in
      let newest =
        query_desc-IsNewest (λ (r : Row R). r.start_time) (belongs_to user) (row_limit limit)
          db.rows in
      let shown =
        subst (ScanOf found) (scanned_of_ok env user limit db ss h) (scan_rows-ScanOf found) in
      record {
        found = found;
        newest = newest;
        shown = shown;
        owned = All-shown user ss found shown newest.matching;
      }

  -- A listing of a user's sessions that succeeds returns the newest of the user's rows, newest
  -- first, as many as the limit allows (50 where it is not positive), each as it stands in the
  -- table, and no session of another user.
  pub get_sessions_by_user-IsHistory :
      (env : Env) (user limit : ℤ) (n : ℕ) (db : Db R) (ss : List (Session R))
      → Allows limit n
      → get_sessions_by_user env user limit db ≡ ok ss
      → IsHistory user n db ss
  get_sessions_by_user-IsHistory env user limit n db ss allowed h =
      subst (λ k. IsHistory user k db ss) (Allows-row_limit limit n allowed)
        (listed-IsHistory env user limit db ss h)
