-- ===== src/Billing/Charges.antt =====
-- What CalculateAndCreateTransaction charges, and when it fails.
use drive_power.Prelude.{
  pos, List, [], ◌∷◌, none, some, true, false, ◌≡◌, ◌≢◌, refl, ◌∙◌, arith, ◌⊎◌, inl, inr,
  Bool-cases, Option-cases, ◌==◌, ==_iff, int_eq,
}
use drive_power.Sql.{query_desc}
use drive_power.Sql.Newest.{IsNewest, query_desc-IsNewest}
use drive_power.Go.{Error, Result, ok, err, message, Platform, FloatLaws}
use drive_power.Billing.Model.{Tariff, Transaction, Db, Env}
use drive_power.Billing.Repo.{get_active, first_row, create}
use drive_power.Billing.Service.{
  TariffService, CreateInput, new_tariff_service, or_default, active_tariff, new_transaction,
  create_priced, calculate_and_create_transaction,
}
use drive_power.Billing.Handlers.{tariff_service}

module _ {R : Type 0} ⦃p : Platform R⦄ where
  -- `tariff` is the active tariff that was updated last, or, where the table has no active tariff or
  -- cannot be read, the default one.
  abbrev pub IsTariffInForce : Env → Db R → Tariff R → Type 0
  IsTariffInForce env db tariff =
      ((env.tariff_fault ≡ none)
        × IsNewest (λ (t : Tariff R). t.updated_at) (λ t. t.is_active) 1 db.tariffs (tariff ∷ []))
      ⊎ ((tariff ≡ tariff_service.default_tariff)
          × (tariff.price_per_kwh ≡ p.of_int (pos 7))
          × (((e : Error) × (env.tariff_fault ≡ some e))
              ⊎ IsNewest (λ (t : Tariff R). t.updated_at) (λ t. t.is_active) 1 db.tariffs []))

  active_tariff-or_default :
      (env : Env) (db : Db R)
      → active_tariff env tariff_service db ≡ or_default tariff_service (get_active env db)
  unfolding active_tariff tariff_service new_tariff_service
  active_tariff-or_default env db = refl

  found_in_force :
      (env : Env) (db : Db R) (found : List (Tariff R))
      → env.tariff_fault ≡ none
      → IsNewest (λ (t : Tariff R). t.updated_at) (λ t. t.is_active) 1 db.tariffs found
      → p.le (p.of_int (pos 7)) (p.of_int (pos 0)) ≡ false
      → (t : Tariff R) × (or_default tariff_service (first_row found) ≡ ok t)
        × IsTariffInForce env db t
  unfolding tariff_service new_tariff_service
  found_in_force env db [] fine newest priced =
      (tariff_service.default_tariff, rw priced refl, inr (refl, refl, inr newest))
  found_in_force env db (t ∷ []) fine newest priced = (t, refl, inl (fine, newest))
  found_in_force env db (t ∷ u ∷ rest) fine newest priced =
      absurd (let short = newest.bounded in omega arith)

  get_active-fine :
      (env : Env) (db : Db R)
      → env.tariff_fault ≡ none
      → get_active env db
        ≡ first_row (query_desc (λ t. t.updated_at) (λ t. t.is_active) 1 db.tariffs)
  unfolding get_active
  get_active-fine env db fine = ground arith

  get_active-fault :
      (env : Env) (db : Db R) (e : Error) → env.tariff_fault ≡ some e → get_active env db ≡ err e
  unfolding get_active
  get_active-fault env db e fault = ground arith

  default_in_force :
      (e : Error)
      → p.le (p.of_int (pos 7)) (p.of_int (pos 0)) ≡ false
      → or_default {R = R} tariff_service (err e) ≡ ok tariff_service.default_tariff
  unfolding tariff_service new_tariff_service
  default_in_force e priced = rw priced refl

  -- A tariff is always found.
  tariff_in_force :
      (env : Env) (db : Db R)
      → p.le (p.of_int (pos 7)) (p.of_int (pos 0)) ≡ false
      → (t : Tariff R) × (active_tariff env tariff_service db ≡ ok t) × IsTariffInForce env db t
  unfolding tariff_service new_tariff_service
  tariff_in_force env db priced = elim (Option-cases env.tariff_fault) [
    | inl fine ↦
        let (t, found, in_force) =
          found_in_force env db
            (query_desc (λ (t : Tariff R). t.updated_at) (λ t. t.is_active) 1 db.tariffs) fine
            (query_desc-IsNewest (λ (t : Tariff R). t.updated_at) (λ t. t.is_active) 1 db.tariffs)
            priced in
        (t, active_tariff-or_default env db ∙ (rw (get_active-fine env db fine) found), in_force)
    | inr (e, fault) ↦ (
      tariff_service.default_tariff,
      active_tariff-or_default env db
          ∙ (rw (get_active-fault env db e fault) (default_in_force e priced)),
      inr (refl, refl, inl (e, fault)),
    )
  ]

  -- What a call that charges leaves: the stored transaction with its tariff.
  pub record IsCharged (env : Env) (input : CreateInput R) (db : Db R)
      (out : Result (Transaction R) × Db R) : Type 0 where
    pub tariff : Tariff R
    pub in_force : IsTariffInForce env db tariff
    pub tx : Transaction R
    pub returned : out.0 ≡ ok tx
    pub amount : tx.amount ≡ p.mul input.energy_kwh tx.price_per_kwh
    pub price :
        p.le tariff.price_per_kwh (p.of_int (pos 0)) ≡ false
        → tx.price_per_kwh ≡ tariff.price_per_kwh
    pub floor :
        p.le tariff.price_per_kwh (p.of_int (pos 0)) ≡ true → tx.price_per_kwh ≡ p.of_int (pos 1)
    pub positive : p.le tx.price_per_kwh (p.of_int (pos 0)) ≡ false
    pub session : tx.session_id ≡ input.session_id
    pub user : tx.user_id ≡ input.user_id
    pub energy : tx.energy_kwh ≡ input.energy_kwh
    pub status : tx.status ≡ "completed"
    pub id : tx.id ≡ pos db.next_id
    pub stored : out.1.transactions ≡ tx ∷ db.transactions
    pub tariffs : out.1.tariffs ≡ db.tariffs

  create_priced-IsCharged :
      (env : Env) (input : CreateInput R) (db : Db R) (tariff : Tariff R)
      → env.insert_fault ≡ none
      → p.le (p.of_int (pos 1)) (p.of_int (pos 0)) ≡ false
      → IsTariffInForce env db tariff
      → IsCharged env input db (create env (new_transaction input tariff) db)
  unfolding create new_transaction
  create_priced-IsCharged env input db tariff fine one in_force =
      let stored = record (new_transaction input tariff) {
        id = pos db.next_id;
        created_at = env.db_now;
      } in
      record {
        tariff = tariff;
        in_force = in_force;
        tx = stored;
        returned = ground arith;
        amount = refl;
        price = λ h. rw h refl;
        floor = λ h. rw h refl;
        positive = elim (Bool-cases (p.le tariff.price_per_kwh (p.of_int (pos 0)))) [
          | inl h ↦ rw h one
          | inr h ↦ rw h h
        ];
        session = refl;
        user = refl;
        energy = refl;
        status = refl;
        id = refl;
        stored = ground arith;
        tariffs = ground arith;
      }

  -- For a session id that is not 0, and an insert that does not fail, the call stores and returns
  -- one new transaction of the input, with status "completed", whose amount is the energy times the
  -- price of the tariff in force, or times 1 where that price is not above 0. In force is the active
  -- tariff that was updated last; where there is none, or where the tariffs cannot be read, it is the
  -- default one, of 7 for a kWh. The price charged is above 0, and the tariffs stay.
  pub calculate-IsCharged :
      (laws : FloatLaws R) (env : Env) (input : CreateInput R) (db : Db R)
      → input.session_id ≢ pos 0
      → env.insert_fault ≡ none
      → IsCharged env input db (calculate_and_create_transaction env tariff_service input db)
  unfolding calculate_and_create_transaction create_priced
  calculate-IsCharged laws env input db given fine =
      let (tariff, found, in_force) =
        tariff_in_force env db (laws.le-of_int 7 0 (omega arith) (omega arith)) in
      let nonzero : (input.session_id == pos 0) ≡ false =
        ground (arith, ==_iff input.session_id (pos 0)) in
      rw (nonzero, found)
        (create_priced-IsCharged env input db tariff fine
          (laws.le-of_int 1 0 (omega arith) (omega arith)) in_force)

  -- A call that returns an error leaves the database as it was; so does every call for session 0,
  -- which returns an error.
  pub calculate_fails-unchanged :
      (env : Env) (svc : TariffService R) (input : CreateInput R) (db : Db R)
      → ((e : Error) (db' : Db R)
          → calculate_and_create_transaction env svc input db ≡ (err e, db')
          → db' ≡ db)
        × (input.session_id ≡ pos 0
            → calculate_and_create_transaction env svc input db
              ≡ (err (message "billing: session id required"), db))
  unfolding calculate_and_create_transaction create_priced create
  calculate_fails-unchanged env svc input db =
      (λ e db' h. ground arith, λ zero_id. ground (arith, ==_iff input.session_id (pos 0)))
