-- ===== src/Billing/Service.antt =====
-- backend/services/billing-service/internal/service
use drive_power.Prelude.{ℤ, pos, List, Bool, true, false, ◌==◌, int_eq, if◌then◌else◌}
use drive_power.Go.{Result, ok, err, message, Platform, zero_time}
use drive_power.Billing.Model.{Tariff, Transaction, Db, Env}
use drive_power.Billing.Repo.{get_active, create, list_by_user}

-- TariffService: `has_repo` is false where its repository is nil.
pub record TariffService (R : Type 0) : Type 0 where
  pub has_repo : Bool
  pub default_tariff : Tariff R

pub record CreateInput (R : Type 0) : Type 0 where
  pub session_id : ℤ
  pub user_id : ℤ
  pub energy_kwh : R

module _ {R : Type 0} ⦃p : Platform R⦄ where
  abbrev pub is_priced : Tariff R → Bool
  is_priced t = if p.le t.price_per_kwh (p.of_int (pos 0)) then false else true

  -- NewTariffService
  unfoldable pub new_tariff_service : Bool → R → TariffService R
  new_tariff_service has_repo price = record {
    has_repo = has_repo;
    default_tariff = record {
      id = pos 0;
      name = "Default";
      price_per_kwh = price;
      is_active = true;
      created_at = zero_time;
      updated_at = zero_time;
    };
  }

  abbrev pub or_default : TariffService R → Result (Tariff R) → Result (Tariff R)
  or_default svc (ok t) = ok t
  or_default svc (err e) = if is_priced svc.default_tariff then ok svc.default_tariff else err e

  unfoldable pub active_tariff : Env → TariffService R → Db R → Result (Tariff R)
  active_tariff env svc db =
      if svc.has_repo
      then or_default svc (get_active env db)
      else or_default svc (err (message "tariff: no tariff configured"))

  -- `if pricePerKWh <= 0 { pricePerKWh = 1 }`
  abbrev pub charged_price : R → R
  charged_price price = if p.le price (p.of_int (pos 0)) then p.of_int (pos 1) else price

  unfoldable pub new_transaction : CreateInput R → Tariff R → Transaction R
  new_transaction input tariff =
      let price = charged_price tariff.price_per_kwh in
      record {
        id = pos 0;
        session_id = input.session_id;
        user_id = input.user_id;
        energy_kwh = input.energy_kwh;
        price_per_kwh = price;
        amount = p.mul input.energy_kwh price;
        status = "completed";
        created_at = zero_time;
      }

  unfoldable pub create_priced :
      Env → CreateInput R → Result (Tariff R) → Db R → Result (Transaction R) × Db R
  create_priced env input (err e) db = (err e, db)
  create_priced env input (ok tariff) db = create env (new_transaction input tariff) db

  unfoldable pub calculate_and_create_transaction :
      Env → TariffService R → CreateInput R → Db R → Result (Transaction R) × Db R
  calculate_and_create_transaction env svc input db =
      if input.session_id == pos 0
      then (err (message "billing: session id required"), db)
      else create_priced env input (active_tariff env svc db) db

module _ {R : Type 0} where
  unfoldable pub transactions_for_user : Env → ℤ → ℤ → Db R → Result (List (Transaction R))
  transactions_for_user env user limit db = list_by_user env user limit db
