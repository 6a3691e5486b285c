-- ===== src/Ocpp/Calls.antt =====
-- What the server answers to a frame.
use Prim.Native.String.{◌++◌}
use drive_power.Prelude.{
  pos, Option-cases, String, List, [], ◌∷◌, Option, none, some, ◌≡◌, ◌≢◌, refl, ap, ◌==◌,
  if◌then◌else◌, if-other, insert, All, ◌∙◌, ◌⊎◌, inl, inr, Assoc, lookup, string_eq,
}
use drive_power.Go.{
  message, Error, Result, ok, err, Platform, Json, int, str, arr, obj, cons, nil, end,
}
use drive_power.Ocpp.Frames.{Message, parse, build_call_result, build_call_error}
use drive_power.Ocpp.Messages.{
  decode_start, decode_stop, decode_meter, MeterValuesRequest, StartTransactionRequest,
  StopTransactionRequest, start_response, empty_response,
}
use drive_power.Ocpp.Model.{Server, Env, Deps}
use drive_power.Ocpp.Handlers.{
  HandlerFunc, boot_notification, heartbeat, status_notification, start_transaction,
  stop_transaction, meter_values, transaction_of, started, stopped, metered,
}
use drive_power.Ocpp.Processor.{
  route, process_message, process, handlers, logged, replied, register,
}

-- The actions of protocol/enums.go.
abbrev pub known_actions : List String
known_actions =
    "BootNotification" ∷ "StatusNotification" ∷ "StartTransaction" ∷ "StopTransaction" ∷ "Heartbeat"
    ∷ "MeterValues" ∷ []

module _ {R W : Type 0} ⦃p : Platform R⦄ where
  -- What the processor makes of the outcome of a handler: a CALLERROR with the id of the call and the
  -- text of the handler's error; no reply; or a CALLRESULT with the id and the handler's answer, or
  -- the error of encoding that answer. The state is the handler's, but for a row of the log.
  abbrev pub IsProcessed :
      Env
      → String
      → Result (Option (Json R)) × Server R W
      → Result (Option (Json R)) × Server R W
      → Type 0
  IsProcessed env unique (err e, s) done = done ≡ (
    ok (
        some (
          arr (
            cons (int (pos 4)) (
              cons (str unique)
                (cons (str "InternalError") (cons (str (p.error_text e)) (cons (obj end) nil))))))),
    s,
  )
  IsProcessed env unique (ok none, s) done = done ≡ (ok none, s)
  IsProcessed env unique (ok (some answer), s) done =
      ((env.encode_fault ≡ none)
        × (done.0 ≡ ok (some (arr (cons (int (pos 3)) (cons (str unique) (cons answer nil))))))
        × (done.1 ≡ record s { log = done.1.log }))
      ⊎ ((e : Error) × (env.encode_fault ≡ some e) × (done ≡ (err e, s)))

  replied-IsProcessed :
      (env : Env) (id : String) (msg : Message R) (out : Result (Option (Json R)) × Server R W)
      → IsProcessed env msg.unique_id out (replied env id msg out)
  unfolding build_call_result build_call_error
  replied-IsProcessed env id msg (err e, s) = refl
  replied-IsProcessed env id msg (ok none, s) = refl
  replied-IsProcessed env id msg (ok (some answer), s) = elim (Option-cases env.encode_fault) [
    | inl fine ↦ inl (fine, rw (fine) refl, rw (fine) refl)
    | inr (e, fault) ↦ inr (e, fault, rw (fault) refl)
  ]

  -- Whatever the handlers are: where a handler fails, the call is answered by an error with its id and the
  -- text of the failure; where the handler answers, by a result with its id and that answer, and by
  -- nothing where the answer cannot be encoded, the one case that fails; and by nothing where the
  -- handler gives no answer. The state is what the handler leaves, but for the log.
  pub process-IsProcessed :
      (table : Assoc String (HandlerFunc R W)) (env : Env) (id : String) (raw : Option (Json R))
      (msg : Message R) (s : Server R W)
      → parse raw ≡ ok msg
      → IsProcessed env msg.unique_id
          (route table env id msg (logged env id "incoming" msg.action raw s))
          (process table env id raw s)
  unfolding process process_message
  process-IsProcessed table env id raw msg s parsed =
      rw (parsed, process) (replied-IsProcessed env id msg _)

  processed :
      (table : Assoc String (HandlerFunc R W)) (env : Env) (id : String) (raw : Option (Json R))
      (msg : Message R) (s : Server R W)
      → parse raw ≡ ok msg
      → process table env id raw s
        ≡ replied env id msg (route table env id msg (logged env id "incoming" msg.action raw s))
  unfolding process process_message
  processed table env id raw msg s parsed = rw (parsed, process) refl

  -- A frame that is no call has no reply and changes nothing.
  pub process-refused :
      (table : Assoc String (HandlerFunc R W)) (env : Env) (id : String) (raw : Option (Json R))
      (e : Error) (s : Server R W)
      → parse raw ≡ err e
      → process table env id raw s ≡ (err e, s)
  unfolding process
  process-refused table env id raw e s refused = rw (refused, process) refl

module _ {R W : Type 0} ⦃p : Platform R⦄ (deps : Deps R W) where
  table-lookup :
      (action : String)
      → lookup action (handlers deps) ≡ (
          if "BootNotification" == action
          then some boot_notification
          else if "StatusNotification" == action
          then some status_notification
          else if "StartTransaction" == action
          then some (start_transaction deps)
          else if "StopTransaction" == action
          then some (stop_transaction deps)
          else if "Heartbeat" == action
          then some heartbeat
          else if "MeterValues" == action
          then some (meter_values deps)
          else none)
  unfolding handlers register insert lookup
  table-lookup action = refl

  -- A call of an action that is none of the six registered ones is answered by an error with its id,
  -- and changes nothing but the log.
  pub unknown_action :
      (env : Env) (id : String) (raw : Option (Json R)) (msg : Message R) (s : Server R W)
      → parse raw ≡ ok msg
      → All (λ known. known ≢ msg.action) known_actions
      → process (handlers deps) env id raw s ≡ (
        ok (
            some (
              build_call_error msg.unique_id "InternalError"
                (p.error_text (message ("ocpp: unsupported action " ++ msg.action))))),
        logged env id "incoming" msg.action raw s,
      )
  unfolding route
  unknown_action env id raw msg s parsed (boot, (status, (start, (stop, (heart, (meter, _)))))) =
      processed (handlers deps) env id raw msg s parsed
      ∙ ap (replied env id msg) (
          unrouted (
            table-lookup msg.action
            ∙ if-other _ _ _ _ boot
            ∙ if-other _ _ _ _ status
            ∙ if-other _ _ _ _ start
            ∙ if-other _ _ _ _ stop
            ∙ if-other _ _ _ _ heart
            ∙ if-other _ _ _ _ meter))
    where
      unrouted :
          lookup msg.action (handlers deps) ≡ none
          → route (handlers deps) env id msg (logged env id "incoming" msg.action raw s) ≡ (
            err (message ("ocpp: unsupported action " ++ msg.action)),
            logged env id "incoming" msg.action raw s,
          )
      unrouted missing = rw (missing, route) refl

  routed :
      (env : Env) (id : String) (raw : Option (Json R)) (msg : Message R) (s : Server R W)
      (handler : HandlerFunc R W)
      → parse raw ≡ ok msg
      → lookup msg.action (handlers deps) ≡ some handler
      → process (handlers deps) env id raw s
        ≡ replied env id msg
            (handler env id msg.payload (logged env id "incoming" msg.action raw s))
  unfolding route
  routed env id raw msg s handler parsed found =
      processed (handlers deps) env id raw msg s parsed
      ∙ ap (replied env id msg) (rw (found, route) refl)

  -- A call of MeterValues whose payload can be read gets no reply.
  pub meter_values_unanswered :
      (env : Env) (id : String) (raw : Option (Json R)) (msg : Message R) (s : Server R W)
      (req : MeterValuesRequest R)
      → parse raw ≡ ok msg
      → msg.action ≡ "MeterValues"
      → decode_meter msg.payload ≡ ok req
      → process (handlers deps) env id raw s
        ≡ (ok none, metered deps req (logged env id "incoming" msg.action raw s))
  unfolding meter_values
  meter_values_unanswered env id raw msg s req parsed action decoded =
      routed env id raw msg s (meter_values deps) parsed (rw action (table-lookup "MeterValues"))
      ∙ rw (decoded, meter_values) refl

  -- A call of StartTransaction whose payload can be read is answered by a result with its id and the id
  -- of the transaction, where that can be encoded, and starts the transaction.
  pub start_transaction_answered :
      (env : Env) (id : String) (raw : Option (Json R)) (msg : Message R) (s : Server R W)
      (req : StartTransactionRequest)
      → parse raw ≡ ok msg
      → msg.action ≡ "StartTransaction"
      → decode_start msg.payload ≡ ok req
      → env.encode_fault ≡ none
      → (let frame = build_call_result msg.unique_id (start_response (transaction_of env id req)) in
          process (handlers deps) env id raw s ≡ (
            ok (some frame),
            logged env id "outgoing" msg.action
                (some frame)
                (started deps env id req (logged env id "incoming" msg.action raw s)),
          ))
  unfolding start_transaction
  start_transaction_answered env id raw msg s req parsed action decoded encoded =
      routed env id raw msg s (start_transaction deps) parsed
        (rw action (table-lookup "StartTransaction"))
      ∙ rw (decoded, start_transaction, encoded) refl

  -- A call of StopTransaction whose payload can be read is answered by an empty result with its id, and
  -- stops the transaction.
  pub stop_transaction_answered :
      (env : Env) (id : String) (raw : Option (Json R)) (msg : Message R) (s : Server R W)
      (req : StopTransactionRequest)
      → parse raw ≡ ok msg
      → msg.action ≡ "StopTransaction"
      → decode_stop msg.payload ≡ ok req
      → env.encode_fault ≡ none
      → (let frame = build_call_result msg.unique_id empty_response in
          process (handlers deps) env id raw s ≡ (
            ok (some frame),
            logged env id "outgoing" msg.action
                (some frame)
                (stopped deps env id req (logged env id "incoming" msg.action raw s)),
          ))
  unfolding stop_transaction
  stop_transaction_answered env id raw msg s req parsed action decoded encoded =
      routed env id raw msg s (stop_transaction deps) parsed
        (rw action (table-lookup "StopTransaction"))
      ∙ rw (decoded, stop_transaction, encoded) refl
