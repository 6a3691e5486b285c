-- ===== src/Sessions/Steps.antt =====
-- The calls that change the state of the service, in the order in which they arrive.
use drive_power.Prelude.{String, List, [], ◌∷◌, Option, none, some}
use drive_power.Go.{Platform}
use drive_power.Sessions.Model.{Env}
use drive_power.Sessions.Cache.{Store, expire}
use drive_power.Sessions.Service.{
  Service, StartInput, StopInput, start_session_from_ocpp, stop_session_from_ocpp,
}

pub data Call (R : Type 0) : Type 0 where
  start : Env → StartInput → Call R
  stop : Env → StopInput R → Call R
  expires : String → Call R

abbrev pub expire_entry : String → Option Store → Option Store
expire_entry k none = none
expire_entry k (some c) = some (expire k c)

module _ {R : Type 0} ⦃p : Platform R⦄ where
  unfoldable pub step : Call R → Service R → Service R
  step (start env input) svc = (start_session_from_ocpp env input svc).1
  step (stop env input) svc = (stop_session_from_ocpp env input svc).1
  step (expires k) svc = record svc { store = expire_entry k svc.store }

  unfoldable pub run : List (Call R) → Service R → Service R
  run [] svc = svc
  run (c ∷ cs) svc = run cs (step c svc)
