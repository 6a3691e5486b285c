-- ===== src/Csms/Calls.antt =====
-- The handler of a charge point in csms/main.go. The connection is one of gorilla/websocket, a copy of
-- which the repository carries: what it reads and whether it writes are given from outside. What the
-- handler logs is not modelled.
use Prim.Native.String.{◌++◌ as append}
use drive_power.Prelude.{
  ℕ, ℤ, pos, String, List, [], ◌∷◌, ◌++◌, Option, none, some, Bool, true, false, ◌==◌, string_eq,
  int_eq, eqb, if◌then◌else◌,
}
use drive_power.Go.{
  Error, Result, ok, err, Platform, Json, null, int, float, str, time, arr, obj, Items, nil, cons,
  Fields, end, field, get,
}
use drive_power.Go.Texts.{trim_prefix, trim_slashes}

-- The id of a station, from the path of its URL.
unfoldable pub station_id : String → String
station_id path =
    let id = trim_slashes (trim_prefix path "/ocpp/") in if id == "" then "unknown" else id

abbrev with_serial : String → String → String
with_serial model serial =
    if serial == "" then model else append model (append " (S/N " (append serial ")"))

-- What the handler writes: a text message, or the control frame that closes the connection.
pub data Written (R : Type 0) : Type 0 where
  text : Json R → Written R
  close : ℕ → String → Written R

-- One reading of the connection: the type and the text of a message or an error; the time in RFC 3339
-- at that moment; and the errors of the writes that follow it.
pub record Reading (R : Type 0) : Type 0 where
  pub message : Result (ℕ × Option (Json R))
  pub now : String
  pub write_error : Option Error
  pub close_error : Option Error

module _ {R : Type 0} where
  -- json.Unmarshal into a []any; a text that is no JSON is `none`.
  unfoldable pub read_frame : Option (Json R) → Option (Items R)
  read_frame (some (arr items)) = some items
  read_frame (some null) = some nil
  read_frame _ = none

  -- The comma-ok assertions to string and to map[string]any, with the zero value where they fail.
  abbrev pub text_or_empty : Json R → String
  text_or_empty (str s) = s
  text_or_empty (time s t) = s
  text_or_empty _ = ""

  abbrev pub fields_or_none : Json R → Fields R
  fields_or_none (obj fs) = fs
  fields_or_none _ = end

  abbrev station_names : Fields R → String × String
  station_names fs = (
    text_or_empty (get "vendorName" fs),
    with_serial (text_or_empty (get "model" fs)) (text_or_empty (get "serialNumber" fs)),
  )

  -- The vendor, the model and the reason of a BootNotification, for the log.
  unfoldable pub parse_boot_notification : Items R → String × String × String
  parse_boot_notification (cons a (cons b (cons c (cons payload rest)))) =
      let fs = fields_or_none payload in
      let (vendor, model) = station_names (fields_or_none (get "chargingStation" fs)) in
      (vendor, model, text_or_empty (get "reason" fs))
  parse_boot_notification _ = ("", "", "")

  unfoldable pub boot_reply : String → String → Json R
  boot_reply uid now = arr (
      cons (int (pos 3)) (
        cons (str uid) (
          cons
            (obj (
              field "currentTime" (str now)
                (field "interval" (int (pos 10)) (field "status" (str "Accepted") end))))
            nil)))

  unfoldable pub heartbeat_reply : String → String → Json R
  heartbeat_reply uid now =
      arr (cons (int (pos 3)) (cons (str uid) (cons (obj (field "currentTime" (str now) end)) nil)))

  -- What an attempt to write leaves: nothing where it fails.
  abbrev written : Option Error → Written R → List (Written R)
  written none w = w ∷ []
  written (some e) w = []

  -- What a round writes, and whether the loop goes on.
  unfoldable pub on_boot : Reading R → String → List (Written R) × Bool
  on_boot r uid = elim r.write_error [
    | some e ↦ ([], false)
    | none ↦ (text (boot_reply uid r.now) ∷ [], true)
  ]

  unfoldable pub on_heartbeat : Reading R → String → List (Written R) × Bool
  on_heartbeat r uid = elim r.write_error [
    | some e ↦ ([], false)
    | none ↦ (
      text (heartbeat_reply uid r.now)
          ∷ written r.close_error (close 1000 "Heartbeat test complete"),
      false,
    )
  ]

  unfoldable pub on_action : Reading R → String → String → List (Written R) × Bool
  on_action r uid action =
      if action == "BootNotification"
      then on_boot r uid
      else if action == "Heartbeat"
      then on_heartbeat r uid
      else ([], true)

module _ {R : Type 0} ⦃p : Platform R⦄ where
  -- int(typ), where `typ` is 0 for what is no number
  abbrev pub type_of : Json R → ℤ
  type_of (int z) = p.to_int (p.of_int z)
  type_of (float x) = p.to_int x
  type_of _ = p.to_int (p.of_int (pos 0))

  unfoldable pub on_frame : Reading R → Items R → List (Written R) × Bool
  on_frame r (cons typ (cons uid (cons action rest))) =
      if type_of typ == pos 2
      then on_action r (text_or_empty uid) (text_or_empty action)
      else ([], true)
  on_frame r _ = ([], true)

  unfoldable pub on_reading : Reading R → List (Written R) × Bool
  on_reading r = elim r.message [
    | err e ↦ ([], false)
    | ok (kind, body) ↦
        if eqb kind 1
        then elim (read_frame body) [ none ↦ ([], true) | some items ↦ on_frame r items ]
        else ([], true)
  ]

  -- The readings one after another, up to the one that ends the handler. A list that is used up leaves
  -- the handler waiting.
  unfoldable pub serve : List (Reading R) → List (Written R) × Bool
  serve [] = ([], true)
  serve (r ∷ rs) =
      let rest = serve rs in
      let (out, goes_on) = on_reading r in if goes_on then (out ++ rest.0, rest.1) else (out, false)
