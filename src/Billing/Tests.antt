-- ===== src/Billing/Tests.antt =====
-- Runs of the billing service on a small database.
use drive_power.Prelude.{
  ℤ, pos, true, [], ◌∷◌, none, some, ◌≡◌, ◌≢◌, refl, arith, string_eq, int_eq,
}
use drive_power.Go.{Error, err, message, int, obj, end, field, Request, decode_body, header_of}
use drive_power.Go.Sample.{sample_platform, sample_laws}
use drive_power.Billing.Model.{Tariff, Db, Env}
use drive_power.Billing.Service.{CreateInput, calculate_and_create_transaction}
use drive_power.Billing.Handlers.{tariff_service, decode_stopped, router}
use drive_power.Billing.Charges.{IsCharged, calculate-IsCharged, calculate_fails-unchanged}
use drive_power.Billing.Replies.{
  StoppedReply, MyTransactions, session_stopped_endpoint, transactions_me_endpoint,
}

abbrev fine : Env
fine = record { db_now = 100; tariff_fault = none; insert_fault = none; list_fault = none }

abbrev tariff : Tariff ℤ
tariff = record {
  id = pos 1;
  name = "day";
  price_per_kwh = pos 12;
  is_active = true;
  created_at = 10;
  updated_at = 10;
}

abbrev priced : Db ℤ
priced = record { tariffs = tariff ∷ []; transactions = []; next_id = 1 }

abbrev charged : CreateInput ℤ
charged = record { session_id = pos 3; user_id = pos 7; energy_kwh = pos 5 }

calculate-IsCharged_example :
    IsCharged fine charged priced
      (calculate_and_create_transaction fine tariff_service charged priced)
calculate-IsCharged_example =
    calculate-IsCharged sample_laws fine charged priced (λ e. ground (arith, e)) refl

calculate_fails-unchanged_run :
    ((e : Error) (db' : Db ℤ)
      → calculate_and_create_transaction fine tariff_service charged priced ≡ (err e, db')
      → db' ≡ priced)
    × (charged.session_id ≡ pos 0
        → calculate_and_create_transaction fine tariff_service charged priced
          ≡ (err (message "billing: session id required"), priced))
calculate_fails-unchanged_run = calculate_fails-unchanged fine tariff_service charged priced

abbrev stopped : Request ℤ
stopped = record {
  method = "POST";
  path = "/internal/ocpp/session-stopped";
  header = [];
  body = some (obj (field "session_id" (int (pos 3)) (field "energy_kwh" (int (pos 5)) end)));
}

session_stopped_endpoint_run :
    (stopped.method ≡ "POST"
      → StoppedReply fine priced
          (decode_body decode_stopped stopped.body)
          (router fine stopped priced))
    × (stopped.method ≢ "POST"
        → ((router fine stopped priced).0.status ≡ 405) × ((router fine stopped priced).1 ≡ priced))
session_stopped_endpoint_run = session_stopped_endpoint fine stopped priced refl

abbrev mine : Request ℤ
mine = record {
  method = "GET";
  path = "/billing/me/transactions";
  header = ("X-User-ID", "7") ∷ [];
  body = none;
}

transactions_me_endpoint_run :
    MyTransactions fine priced (header_of "X-User-ID" mine) (router fine mine priced).0
    × ((router fine mine priced).1 ≡ priced)
transactions_me_endpoint_run = transactions_me_endpoint fine mine priced refl refl
