-- ===== src/Billing/Replies.antt =====
-- What the HTTP endpoints of the service answer, on every branch.
use drive_power.Prelude.{
  ℤ, pos, String, List, some, ◌≡◌, ◌≢◌, refl, arith, ◌⊎◌, inl, inr, ◌==◌, ==_iff, string_eq, int_eq,
  Bool-cases, Option-cases, lookup, if◌then◌else◌,
}
use drive_power.Go.{
  Error, Result, ok, err, Platform, Request, Response, status_of, write_json, write_error, method,
  decode_body, header_of, parse_int, mux-found, method_cases,
}
use drive_power.Sql.Newest.{IsNewest, query_desc-IsNewest}
use drive_power.Billing.Model.{Transaction, Db, Env}
use drive_power.Billing.Repo.{list_by_user, belongs_to}
use drive_power.Billing.Service.{
  CreateInput, calculate_and_create_transaction, transactions_for_user,
}
use drive_power.Billing.Handlers.{
  tariff_service, decode_stopped, transaction_json, transactions_json, created_reply, listed_reply,
  session_stopped, transactions_me, transactions_of, routes, router,
}

module _ {R : Type 0} ⦃p : Platform R⦄ where
  abbrev charge : Env → CreateInput R → Db R → Result (Transaction R) × Db R
  charge env input db = calculate_and_create_transaction env tariff_service input db

  -- The answer to a stop notification, by what its body decodes to.
  abbrev pub StoppedReply : Env → Db R → Result (CreateInput R) → Response R × Db R → Type 0
  StoppedReply env db (err e) out = (out.0.status ≡ 400) × (out.1 ≡ db)
  StoppedReply env db (ok input) out =
      ((input.session_id ≡ pos 0) × (out.0.status ≡ 400) × (out.1 ≡ db))
      ⊎ ((input.session_id ≢ pos 0)
          × (out.1 ≡ (charge env input db).1)
          × (((tx : Transaction R) × ((charge env input db).0 ≡ ok tx)
                × (out.0 ≡ write_json 201 (transaction_json tx)))
              ⊎ ((e : Error) × ((charge env input db).0 ≡ err e) × (out.0.status ≡ 500))))

  created :
      (out : Result (Transaction R))
      → ((tx : Transaction R) × (out ≡ ok tx)
          × (created_reply out ≡ write_json 201 (transaction_json tx)))
        ⊎ ((e : Error) × (out ≡ err e) × ((created_reply out).status ≡ 500))
  unfolding created_reply write_error write_json
  created (ok tx) = inl (tx, refl, refl)
  created (err e) = inr (e, refl, refl)

  stopped_by :
      (env : Env) (input : CreateInput R) (db : Db R)
      → StoppedReply env db (ok input) (
          if input.session_id == pos 0
          then (write_error 400 "session_id required", db)
          else (created_reply (charge env input db).0, (charge env input db).1))
  unfolding write_error write_json
  stopped_by env input db = elim (Bool-cases (input.session_id == pos 0)) [
    | inl e ↦ rw e (inl ((==_iff _ _).0 e, refl, refl))
    | inr e ↦ rw e (
        inr
          (ground (arith, ==_iff input.session_id (pos 0)), refl, created (charge env input db).0))
  ]

  session_stopped-StoppedReply :
      (env : Env) (req : Request R) (db : Db R)
      → StoppedReply env db (decode_body decode_stopped req.body) (session_stopped env req db)
  unfolding session_stopped
  session_stopped-StoppedReply env req db = go (decode_body decode_stopped req.body) refl
    where
      go :
          (out : Result (CreateInput R))
          → decode_body decode_stopped req.body ≡ out
          → StoppedReply env db out (session_stopped env req db)
      go (err e) q = rw (q, session_stopped) (unfold write_error write_json in (refl, refl))
      go (ok input) q = rw (q, session_stopped) (stopped_by env input db)

  -- POST /internal/ocpp/session-stopped answers 400 and changes nothing where the body does not
  -- decode or has session id 0; else it charges, and answers 201 with the transaction where that
  -- succeeds and 500 where it fails. Any other method is answered 405, and changes nothing.
  pub session_stopped_endpoint :
      (env : Env) (req : Request R) (db : Db R)
      → req.path ≡ "/internal/ocpp/session-stopped"
      → (req.method ≡ "POST"
          → StoppedReply env db (decode_body decode_stopped req.body) (router env req db))
        × (req.method ≢ "POST"
            → (status_of (router env req db) ≡ 405) × ((router env req db).1 ≡ db))
  unfolding router routes lookup
  session_stopped_endpoint env req db path =
      let routed =
        mux-found (routes env) (method "POST" (session_stopped env)) req db (rw path refl) in
      let (same, other) = method_cases "POST" (session_stopped env) req db in
      rw routed (λ post. rw (same post) (session_stopped-StoppedReply env req db), other)

  -- The answer to a request for one's transactions, by the user id of its header: 401 without one,
  -- 400 where it is no int64, 500 where the listing fails, and else 200 with the 50 newest
  -- transactions of that user, newest first.
  abbrev pub MyTransactions : Env → Db R → String → Response R → Type 0
  MyTransactions env db user_text out =
      ((user_text ≡ "") × (out.status ≡ 401))
      ⊎ ((user_text ≢ "") × ((e : Error) × (parse_int user_text ≡ err e) × (out.status ≡ 400)))
      ⊎ ((user : ℤ) × (parse_int user_text ≡ ok user)
          × (((e : Error) × (env.list_fault ≡ some e) × (out.status ≡ 500))
              ⊎ ((found : List (Transaction R)) × IsNewest (λ (tx : Transaction R). tx.created_at)
                    (belongs_to user) 50 db.transactions found
                  × (out ≡ write_json 200 (transactions_json found)))))

  listed_by :
      (env : Env) (db : Db R) (user : ℤ)
      → ((e : Error) × (env.list_fault ≡ some e)
          × ((listed_reply (transactions_for_user env user (pos 50) db)).status ≡ 500))
        ⊎ ((found : List (Transaction R)) × IsNewest
              (λ (tx : Transaction R). tx.created_at)
              (belongs_to user)
              50
              db.transactions
              found
            × (listed_reply (transactions_for_user env user (pos 50) db)
                ≡ write_json 200 (transactions_json found)))
  unfolding transactions_for_user list_by_user listed_reply write_error write_json
  listed_by env db user = elim (Option-cases env.list_fault) [
    | inr (e, fault) ↦ inl (e, fault, ground arith)
    | inl fine ↦ inr (
      _,
      query_desc-IsNewest (λ (tx : Transaction R). tx.created_at) (belongs_to user) 50
          db.transactions,
      ground arith,
    )
  ]

  parsed_by :
      (env : Env) (db : Db R) (user_text : String) (out : Result ℤ)
      → parse_int user_text ≡ out
      → user_text ≢ ""
      → MyTransactions env db user_text (transactions_of env db out)
  unfolding transactions_of write_error write_json
  parsed_by env db user_text (err e) q given = inr (inl (given, (e, q, refl)))
  parsed_by env db user_text (ok user) q given = inr (inr (user, q, listed_by env db user))

  transactions_me-MyTransactions :
      (env : Env) (req : Request R) (db : Db R)
      → MyTransactions env db (header_of "X-User-ID" req) (transactions_me env req db).0
  unfolding transactions_me
  transactions_me-MyTransactions env req db = elim (Bool-cases (header_of "X-User-ID" req == "")) [
    | inl e ↦ rw e (inl ((==_iff _ _).0 e, unfold write_error write_json in refl))
    | inr e ↦
        rw e (parsed_by env db _ _ refl (ground (arith, ==_iff (header_of "X-User-ID" req) "")))
  ]

  -- GET /billing/me/transactions answers by the header X-User-ID: 401 where it is missing or empty, 400
  -- where it is no int64, 500 where the listing fails, and else 200 with the 50 newest transactions of
  -- that user, newest first. It changes nothing.
  pub transactions_me_endpoint :
      (env : Env) (req : Request R) (db : Db R)
      → req.path ≡ "/billing/me/transactions"
      → req.method ≡ "GET"
      → MyTransactions env db (header_of "X-User-ID" req) (router env req db).0
        × ((router env req db).1 ≡ db)
  unfolding router routes lookup
  transactions_me_endpoint env req db path get =
      let routed =
        mux-found (routes env) (method "GET" (transactions_me env)) req db (rw path refl) in
      let same = (method_cases "GET" (transactions_me env) req db).0 get in
      rw (routed, same)
        (transactions_me-MyTransactions env req db, unfold transactions_me in ground arith)
