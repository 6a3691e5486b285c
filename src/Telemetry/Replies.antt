-- ===== src/Telemetry/Replies.antt =====
-- What the endpoint for meter values answers, on every branch.
use drive_power.Prelude.{
  pos, ◌≡◌, ◌≢◌, refl, arith, ◌⊎◌, inl, inr, ◌==◌, ==_iff, string_eq, int_eq, Bool-cases, lookup,
  if◌then◌else◌,
}
use drive_power.Go.{
  Error, Result, ok, err, Platform, Request, Response, status_of, method, decode_body, mux-found,
  method_cases,
}
use drive_power.Telemetry.Model.{Db, Env}
use drive_power.Telemetry.Service.{MeterValueInput, store_meter_value}
use drive_power.Telemetry.Handlers.{
  decode_meter, text_error, status_ok, stored_reply, meter_values, routes, router,
}

module _ {R : Type 0} ⦃p : Platform R⦄ where
  -- The answer to a meter value, by what its body decodes to.
  abbrev pub MeterReply : Env → Db R → Result (MeterValueInput R) → Response R × Db R → Type 0
  MeterReply env db (err e) out = (out.0.status ≡ 400) × (out.1 ≡ db)
  MeterReply env db (ok input) out =
      ((input.session_id ≡ pos 0) × (out.0.status ≡ 400) × (out.1 ≡ db))
      ⊎ ((input.session_id ≢ pos 0)
          × (out.1 ≡ (store_meter_value env input db).1)
          × ((((store_meter_value env input db).0 ≡ ok tt) × (out.0.status ≡ 202))
              ⊎ ((e : Error) × ((store_meter_value env input db).0 ≡ err e)
                  × (out.0.status ≡ 500))))

  stored_by :
      (env : Env) (input : MeterValueInput R) (db : Db R)
      → MeterReply env db (ok input) (
          if input.session_id == pos 0 then (text_error 400 "session_id is required", db) else (
            stored_reply (store_meter_value env input db).0,
            (store_meter_value env input db).1,
          ))
  unfolding text_error stored_reply status_ok
  stored_by env input db = elim (Bool-cases (input.session_id == pos 0)) [
    | inl e ↦ rw e (inl ((==_iff _ _).0 e, refl, refl))
    | inr e ↦ rw e (
        inr (
          ground (arith, ==_iff input.session_id (pos 0)),
          refl,
          stored (store_meter_value env input db).0,
        ))
  ]
    where
      stored :
          (out : Result (Unit {0}))
          → ((out ≡ ok tt) × ((stored_reply {R = R} out).status ≡ 202))
            ⊎ ((e : Error) × (out ≡ err e) × ((stored_reply {R = R} out).status ≡ 500))
      stored (ok _) = inl (refl, refl)
      stored (err e) = inr (e, refl, refl)

  meter_values-MeterReply :
      (env : Env) (req : Request R) (db : Db R)
      → MeterReply env db (decode_body decode_meter req.body) (meter_values env req db)
  unfolding meter_values
  meter_values-MeterReply env req db = go (decode_body decode_meter req.body) refl
    where
      go :
          (out : Result (MeterValueInput R))
          → decode_body decode_meter req.body ≡ out
          → MeterReply env db out (meter_values env req db)
      go (err e) q = rw (q, meter_values) (unfold text_error in (refl, refl))
      go (ok input) q = rw (q, meter_values) (stored_by env input db)

  -- POST /internal/ocpp/meter-values answers 400 and changes nothing where the body does not decode
  -- or has session id 0; else it stores the value, and answers 202 where that succeeds and 500 where
  -- it fails. Any other method is answered 405, and changes nothing.
  pub meter_values_endpoint :
      (env : Env) (req : Request R) (db : Db R)
      → req.path ≡ "/internal/ocpp/meter-values"
      → (req.method ≡ "POST"
          → MeterReply env db (decode_body decode_meter req.body) (router env req db))
        × (req.method ≢ "POST"
            → (status_of (router env req db) ≡ 405) × ((router env req db).1 ≡ db))
  unfolding router routes lookup
  meter_values_endpoint env req db path =
      let routed =
        mux-found (routes env) (method "POST" (meter_values env)) req db (rw path refl) in
      let (same, other) = method_cases "POST" (meter_values env) req db in
      rw routed (λ post. rw (same post) (meter_values-MeterReply env req db), other)
