-- ===== src/Ocpp/Processor.antt =====
-- backend/services/ocpp-server/internal/ocpp/router.go, with the table of handlers that
-- internal/app/app.go registers. The reply to a frame is `none` where nothing is sent.
use Prim.Native.String.{◌++◌}
use drive_power.Prelude.{String, [], Option, none, some, Assoc, lookup, insert, string_eq}
use drive_power.Go.{Result, ok, err, message, Platform, Json}
use drive_power.Ocpp.Frames.{Message, parse, build_call_result, build_call_error}
use drive_power.Ocpp.Model.{Server, Env, Deps}
use drive_power.Ocpp.Repo.{save}
use drive_power.Ocpp.Handlers.{
  HandlerFunc, boot_notification, heartbeat, status_notification, start_transaction,
  stop_transaction, meter_values,
}

module _ {R W : Type 0} where
  unfoldable pub register :
      String → HandlerFunc R W → Assoc String (HandlerFunc R W) → Assoc String (HandlerFunc R W)
  register action handler handlers = insert action handler handlers

  unfoldable pub route :
      Assoc String (HandlerFunc R W)
      → Env
      → String
      → Message R
      → Server R W
      → Result (Option (Json R)) × Server R W
  route handlers env id msg s = elim (lookup msg.action handlers) [
    | none ↦ (err (message ("ocpp: unsupported action " ++ msg.action)), s)
    | some handler ↦ handler env id msg.payload s
  ]

  -- Save, whose error is dropped.
  abbrev pub logged : Env → String → String → String → Option (Json R) → Server R W → Server R W
  logged env id way action frame s = record s { log = (save env id way action frame s.log).1 }

module _ {R W : Type 0} ⦃p : Platform R⦄ where
  abbrev pub replied :
      Env
      → String
      → Message R
      → Result (Option (Json R)) × Server R W
      → Result (Option (Json R)) × Server R W
  replied env id msg (err e, s) =
      (ok (some (build_call_error msg.unique_id "InternalError" (p.error_text e))), s)
  replied env id msg (ok none, s) = (ok none, s)
  replied env id msg (ok (some answer), s) =
      let frame = build_call_result msg.unique_id answer in
      elim env.encode_fault [
        | some e ↦ (err e, s)
        | none ↦ (ok (some frame), logged env id "outgoing" msg.action (some frame) s)
      ]

  unfoldable pub process_message :
      Assoc String (HandlerFunc R W)
      → Env
      → String
      → Option (Json R)
      → Message R
      → Server R W
      → Result (Option (Json R)) × Server R W
  process_message handlers env id raw msg s =
      replied env id msg (route handlers env id msg (logged env id "incoming" msg.action raw s))

  -- Processor.Process
  unfoldable pub process :
      Assoc String (HandlerFunc R W)
      → Env
      → String
      → Option (Json R)
      → Server R W
      → Result (Option (Json R)) × Server R W
  process handlers env id raw s = elim (parse raw) [
    | err e ↦ (err e, s)
    | ok msg ↦ process_message handlers env id raw msg s
  ]

  -- The calls of Register in app.New.
  unfoldable pub handlers : Deps R W → Assoc String (HandlerFunc R W)
  handlers deps = register "MeterValues" (meter_values deps) (
      register "Heartbeat" heartbeat (
        register "StopTransaction" (stop_transaction deps) (
          register "StartTransaction" (start_transaction deps) (
            register "StatusNotification" status_notification
              (register "BootNotification" boot_notification [])))))
