-- ===== src/Billing/Handlers.antt =====
-- backend/services/billing-service/internal/http: the handlers and the router.
use drive_power.Prelude.{
  ℤ, pos, String, List, [], ◌∷◌, true, Assoc, ◌==◌, string_eq, int_eq, if◌then◌else◌,
}
use drive_power.Go.{
  Result, ok, err, ◌>>=◌, Platform, Json, null, int, float, str, time, arr, obj, Items, nil, cons,
  end, field, get, fields_of, as_int64, as_float, Response, Handler, write_json, write_error,
  method, mux, decode_body, header_of, parse_int,
}
use drive_power.Billing.Model.{Transaction, Db, Env}
use drive_power.Billing.Service.{
  TariffService, CreateInput, new_tariff_service, calculate_and_create_transaction,
  transactions_for_user,
}

module _ {R : Type 0} ⦃p : Platform R⦄ where
  -- app.New: the default price is 7.
  unfoldable pub tariff_service : TariffService R
  tariff_service = new_tariff_service true (p.of_int (pos 7))

  -- sessionStoppedRequest
  unfoldable pub decode_stopped : Json R → Result (CreateInput R)
  decode_stopped j = do
    fs ← fields_of j
    session ← as_int64 (get "session_id" fs)
    user ← as_int64 (get "user_id" fs)
    energy ← as_float (get "energy_kwh" fs)
    ok (record { session_id = session; user_id = user; energy_kwh = energy })

  -- The tags of models.Transaction.
  unfoldable pub transaction_json : Transaction R → Json R
  transaction_json tx = obj (
      field "id" (int tx.id) (
        field "session_id" (int tx.session_id) (
          field "user_id" (int tx.user_id) (
            field "energy_kwh" (float tx.energy_kwh) (
              field "price_per_kwh" (float tx.price_per_kwh) (
                field "amount" (float tx.amount) (
                  field "status" (str tx.status) (
                    field "created_at" (time (p.format_time tx.created_at) tx.created_at)
                      end))))))))

  unfoldable pub transaction_items : List (Transaction R) → Items R
  transaction_items [] = nil
  transaction_items (tx ∷ rest) = cons (transaction_json tx) (transaction_items rest)

  -- A slice to which no row was appended is nil, which is written as null.
  unfoldable pub transactions_json : List (Transaction R) → Json R
  transactions_json [] = obj (field "transactions" null end)
  transactions_json (tx ∷ rest) =
      obj (field "transactions" (arr (transaction_items (tx ∷ rest))) end)

  unfoldable pub created_reply : Result (Transaction R) → Response R
  created_reply (ok tx) = write_json 201 (transaction_json tx)
  created_reply (err e) = write_error 500 "billing calculation failed"

  unfoldable pub listed_reply : Result (List (Transaction R)) → Response R
  listed_reply (ok txs) = write_json 200 (transactions_json txs)
  listed_reply (err e) = write_error 500 "failed to load transactions"

  unfoldable pub session_stopped : Env → Handler R (Db R)
  session_stopped env req db = elim (decode_body decode_stopped req.body) [
    | err e ↦ (write_error 400 "invalid json", db)
    | ok input ↦
        if input.session_id == pos 0
        then (write_error 400 "session_id required", db)
        else (let (created, db') = calculate_and_create_transaction env tariff_service input db in
            (created_reply created, db'))
  ]

  -- The rest of the handler, by what the header parses to.
  unfoldable pub transactions_of : Env → Db R → Result ℤ → Response R
  transactions_of env db (err e) = write_error 400 "invalid user id header"
  transactions_of env db (ok user) = listed_reply (transactions_for_user env user (pos 50) db)

  unfoldable pub transactions_me : Env → Handler R (Db R)
  transactions_me env req db =
      let user_text = header_of "X-User-ID" req in
      if user_text == ""
      then (write_error 401 "missing user id header", db)
      else (transactions_of env db (parse_int user_text), db)

  unfoldable pub health : Handler R (Db R)
  health req db = (write_json 200 (obj (field "status" (str "ok") end)), db)

  unfoldable pub routes : Env → Assoc String (Handler R (Db R))
  routes env =
      ("/internal/ocpp/session-stopped", method "POST" (session_stopped env))
      ∷ ("/billing/me/transactions", method "GET" (transactions_me env))
      ∷ ("/health", method "GET" health)
      ∷ []

  unfoldable pub router : Env → Handler R (Db R)
  router env = mux (routes env)
