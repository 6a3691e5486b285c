-- ===== src/Sessions/OpenRows.antt =====
-- The listing of the active sessions while a session is running: its row has no end time, which
-- cannot be read into models.Session.
use drive_power.Prelude.{
  ℕ, zero, suc, ◌<◌, ◌≤◌, pos, List, [], ◌∷◌, none, Bool, true, ◌≡◌, refl, ap, ◌∙◌, arith, ◌⊎◌, inl,
  inr, Bool-cases, ltb, string_eq, length, take, select,
}
use drive_power.Sql.{insert_desc, order_by_desc, query_desc}
use drive_power.Go.{ok, err, null_scan, Platform}
use drive_power.Sessions.Model.{Session, Row, Db, Env}
use drive_power.Sessions.Repo.{find_row, inserted, is_active, get_active_sessions}
use drive_power.Sessions.Service.{
  Service, StartInput, new_session, start_session_from_ocpp, active_sessions,
}
use drive_power.Sessions.Starts.{start_session_ok}
use drive_power.Sessions.History.{IsOpen, HasOpen, scan_rows-open}

module _ {R : Type 0} (key : Row R → ℕ) where
  HasOpen-insert_desc :
      (r : Row R) (rs : List (Row R)) → IsOpen r ⊎ HasOpen rs → HasOpen (insert_desc key r rs)
  unfolding insert_desc
  HasOpen-insert_desc r [] h = h
  HasOpen-insert_desc r (x ∷ xs) h = elim (Bool-cases (ltb (key x) (key r))) [
    | inl e ↦ rw e h
    | inr e ↦ rw e (later h (HasOpen-insert_desc r xs))
  ]
    where
      later :
          IsOpen r ⊎ (IsOpen x ⊎ HasOpen xs)
          → (IsOpen r ⊎ HasOpen xs → HasOpen (insert_desc key r xs))
          → IsOpen x ⊎ HasOpen (insert_desc key r xs)
      later (inl o) into = inr (into (inl o))
      later (inr (inl o)) into = inl o
      later (inr (inr o)) into = inr (into (inr o))

  HasOpen-order_by_desc : (rs : List (Row R)) → HasOpen rs → HasOpen (order_by_desc key rs)
  unfolding order_by_desc
  HasOpen-order_by_desc (r ∷ rs) (inl o) = HasOpen-insert_desc r _ (inl o)
  HasOpen-order_by_desc (r ∷ rs) (inr h) =
      HasOpen-insert_desc r _ (inr (HasOpen-order_by_desc rs h))
  HasOpen-order_by_desc [] h = h

  length-insert_desc :
      (r : Row R) (rs : List (Row R)) → length (insert_desc key r rs) ≡ suc (length rs)
  unfolding insert_desc
  length-insert_desc r [] = refl
  length-insert_desc r (x ∷ xs) = ground (arith, length-insert_desc r xs)

  length-order_by_desc : (rs : List (Row R)) → length (order_by_desc key rs) ≡ length rs
  unfolding order_by_desc
  length-order_by_desc [] = refl
  length-order_by_desc (r ∷ rs) = length-insert_desc r _ ∙ ap suc (length-order_by_desc rs)

  take_all : (n : ℕ) (rs : List (Row R)) → length rs ≤ n → take n rs ≡ rs
  take_all zero [] h = refl
  take_all zero (r ∷ rs) h = absurd (omega arith)
  take_all (suc n) [] h = refl
  take_all (suc n) (r ∷ rs) h = ap (λ t. r ∷ t) (take_all n rs (omega arith))

  HasOpen-query_desc :
      (p : Row R → Bool) (n : ℕ) (rows : List (Row R))
      → HasOpen (select p rows)
      → length (select p rows) ≤ n
      → HasOpen (query_desc key p n rows)
  unfolding query_desc
  HasOpen-query_desc p n rows h fits =
      rw (take_all n (order_by_desc key (select p rows)) (rw length-order_by_desc fits))
        (HasOpen-order_by_desc (select p rows) h)

module _ {R : Type 0} where
  HasOpen-select :
      (p : Row R → Bool) (r : Row R) (rs : List (Row R))
      → p r ≡ true
      → IsOpen r
      → HasOpen (select p (r ∷ rs))
  unfolding select
  HasOpen-select p r rs passes o = rw passes (inl o)

  active_listing_fails :
      (env : Env) (db : Db R)
      → env.db_fault ≡ none
      → HasOpen (select is_active db.rows)
      → length (select is_active db.rows) ≤ 50
      → get_active_sessions env (pos 50) db ≡ err null_scan
  unfolding get_active_sessions
  active_listing_fails env db fine h fits =
      let scanned =
        scan_rows-open _
          (HasOpen-query_desc (λ (r : Row R). r.start_time) is_active 50 db.rows h fits) in
      ground (arith, scanned)

module _ {R : Type 0} ⦃p : Platform R⦄ where
  length-select-cons :
      (r : Row R) (rs : List (Row R))
      → length (select is_active (r ∷ rs)) ≤ suc (length (select is_active rs))
  unfolding select
  length-select-cons r rs = ground arith

  -- Once a start of a new transaction has succeeded, with fewer than 50 active rows in the table
  -- before it, the listing of the active sessions fails, without any fault of the database: the end
  -- time of the new row is NULL.
  pub active_listing_fails_after_start :
      (env env' : Env) (input : StartInput) (svc : Service R) (s : Session R) (svc' : Service R)
      → find_row input.transaction_id svc.db.rows ≡ none
      → length (select is_active svc.db.rows) < 50
      → start_session_from_ocpp env input svc ≡ (ok s, svc')
      → env'.db_fault ≡ none
      → active_sessions env' (pos 50) svc' ≡ err null_scan
  unfolding active_sessions
  active_listing_fails_after_start env env' input svc s svc' absent few h fine =
      let stored = (start_session_ok env input svc s svc' h).1 in
      let rows : svc'.db.rows ≡ inserted env (new_session env input) svc.db.next_id ∷ svc.db.rows =
        rw absent at stored in
      active_listing_fails env' svc'.db fine
        (rw rows (unfold inserted new_session in HasOpen-select is_active _ svc.db.rows refl refl))
        (rw rows (
          omega (
            arith,
            length-select-cons (inserted env (new_session env input) svc.db.next_id) svc.db.rows,
          )))
