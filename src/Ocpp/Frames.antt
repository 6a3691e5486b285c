-- ===== src/Ocpp/Frames.antt =====
-- backend/services/ocpp-server/internal/ocpp/parser.go. The texts of frames are JSON values; a text
-- that is no JSON is `none`.
use drive_power.Prelude.{ℤ, pos, String, Option, some, ◌==◌, int_eq, if◌then◌else◌}
use drive_power.Go.{
  Result, ok, err, message, mismatch, ◌>>=◌, Json, null, int, str, arr, obj, Items, nil, cons, end,
  as_int64, as_string,
}

pub record Message (R : Type 0) : Type 0 where
  pub message_type : ℤ
  pub unique_id : String
  pub action : String
  pub payload : Json R

module _ {R : Type 0} where
  -- A CALL, given its elements after the first two.
  unfoldable pub call_of : Json R → Items R → Result (Message R)
  call_of id (cons action (cons payload rest)) = do
    unique ← as_string id
    name ← as_string action
    ok (record { message_type = pos 2; unique_id = unique; action = name; payload = payload })
  call_of id _ = err (message "ocpp: incomplete CALL frame")

  unfoldable pub typed_frame : ℤ → Json R → Items R → Result (Message R)
  typed_frame kind id rest =
      if kind == pos 2 then call_of id rest else err (message "ocpp: unsupported message type")

  unfoldable pub parse_items : Items R → Result (Message R)
  parse_items (cons first (cons id (cons third rest))) = do
    kind ← as_int64 first
    typed_frame kind id (cons third rest)
  parse_items _ = err (message "ocpp: malformed frame")

  -- json.Unmarshal into a slice: null gives the empty slice, any other value that is no array an error.
  unfoldable pub parse : Option (Json R) → Result (Message R)
  parse (some (arr items)) = parse_items items
  parse (some null) = parse_items nil
  parse _ = err mismatch

  unfoldable pub build_call_result : String → Json R → Json R
  build_call_result unique payload = arr (cons (int (pos 3)) (cons (str unique) (cons payload nil)))

  unfoldable pub build_call_error : String → String → String → Json R
  build_call_error unique code description = arr (
      cons (int (pos 4))
        (cons (str unique) (cons (str code) (cons (str description) (cons (obj end) nil)))))
