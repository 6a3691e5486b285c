-- ===== src/Config/Loader.antt =====
-- LoadConfig of backend/libs/config/config.go. A target that is half filled in when a variable is
-- refused is dropped: no caller uses it.
use Prim.Native.String.{◌++◌}
use drive_power.Prelude.{
  ℕ, ◌-◌, ◌^◌, ℤ, pos, negsuc, String, Bool, true, false, ◌||◌, Option, none, some, lookup, ltb,
  if◌then◌else◌, ◌==◌, string_eq,
}
use drive_power.Go.{Result, ok, err, message, parse_int, digits_of}
use drive_power.Go.Texts.{to_upper, dashes_replaced}
use drive_power.Config.Model.{
  Leaf, text, flag, integer, unsigned, real, unsupported, FieldType, Fields, no_fields, leaf_field,
  struct_field, embedded, read_file, decode_yaml, parse, Outcome, loaded, failed, both, on_loaded,
  Variables, Deps,
}

-- strconv.ParseBool
unfoldable pub parse_bool : String → Result Bool
parse_bool s =
    if s == "1" || s == "t" || s == "T" || s == "true" || s == "TRUE" || s == "True"
    then ok true
    else if s == "0" || s == "f" || s == "F" || s == "false" || s == "FALSE" || s == "False"
    then ok false
    else err (message "invalid syntax")

-- strconv.ParseInt(s, 10, bits), for at most 64 bits
fits : ℕ → ℤ → Bool
fits bits (pos n) = ltb n (2 ^ (bits - 1))
fits bits (negsuc n) = ltb n (2 ^ (bits - 1))

unfoldable pub parse_bits : ℕ → String → Result ℤ
unfolding fits
parse_bits bits s = elim (parse_int s) [
  | err e ↦ err e
  | ok n ↦ if fits bits n then ok n else err (message "value out of range")
]

-- strconv.ParseUint(s, 10, bits)
unfoldable pub parse_uint : ℕ → String → Result ℕ
parse_uint bits s = elim (digits_of s) [
  | none ↦ err (message "invalid syntax")
  | some n ↦ if ltb n (2 ^ bits) then ok n else err (message "value out of range")
]

unfoldable pub normalize_key : String → String → String
normalize_key prefix key =
    let key = to_upper (dashes_replaced key) in if prefix == "" then key else prefix ++ "_" ++ key

unfoldable pub env_key : String → FieldType → String
env_key prefix field =
    if field.env_tag == "" then normalize_key prefix field.name else normalize_key "" field.env_tag

-- A field that LoadConfig looks at.
unfoldable pub is_read : FieldType → Bool
is_read field = if field.env_tag == "-" then false else field.can_set

abbrev pub set_to {ℓ} : {A B : Type ℓ} → (A → B) → Result A → Result B
set_to f (ok a) = ok (f a)
set_to f (err e) = err e

-- os.Getenv
abbrev getenv : Option String → String
getenv none = ""
getenv (some value) = value

module _ {R : Type 0} where
  unfoldable pub assign : Deps R → Leaf R → String → Result (Leaf R)
  assign deps (text old) value = ok (text value)
  assign deps (flag old) value = set_to flag (parse_bool value)
  assign deps (integer bits old) value = set_to (integer bits) (parse_bits bits value)
  assign deps (unsigned bits old) value = set_to (unsigned bits) (parse_uint bits value)
  assign deps (real old) value = set_to real (deps.parse_float value)
  assign deps (unsupported type) value = err (message ("unsupported field type " ++ type))

  -- A leaf with the variable of its key, if there is one.
  unfoldable pub from_env : Deps R → Variables → String → Leaf R → Outcome (Leaf R)
  from_env deps vars key leaf = elim (lookup key vars) [
    | none ↦ loaded leaf
    | some value ↦ elim (assign deps leaf value) [
      | ok new ↦ loaded new
      | err e ↦ failed (parse key e)
    ]
  ]

  unfoldable pub populate_from_env : Deps R → Variables → Fields R → String → Outcome (Fields R)
  populate_from_env deps vars no_fields prefix = loaded no_fields
  populate_from_env deps vars (leaf_field field leaf rest) prefix =
      let after = populate_from_env deps vars rest prefix in
      if is_read field
      then both (leaf_field field) (from_env deps vars (env_key prefix field) leaf) after
      else on_loaded (leaf_field field leaf) after
  populate_from_env deps vars (struct_field field inner rest) prefix =
      let within = populate_from_env deps vars inner (env_key prefix field) in
      let after = populate_from_env deps vars rest prefix in
      if is_read field
      then both (struct_field field) within after
      else on_loaded (struct_field field inner) after
  populate_from_env deps vars (embedded can_set inner rest) prefix =
      let within = populate_from_env deps vars inner prefix in
      let after = populate_from_env deps vars rest prefix in
      if can_set
      then both (embedded can_set) within after
      else on_loaded (embedded can_set inner) after

  unfoldable pub load_from_file : Deps R → String → Fields R → Outcome (Fields R)
  load_from_file deps path target = elim (deps.read path) [
    | err e ↦ failed (read_file e)
    | ok data_ ↦ elim (deps.unmarshal data_ target) [
      | err e ↦ failed (decode_yaml e)
      | ok filled ↦ loaded filled
    ]
  ]

  -- The target is a pointer to a struct, as in every call.
  unfoldable pub load_config : Deps R → Variables → Fields R → Outcome (Fields R)
  load_config deps vars target =
      let path = getenv (lookup "CONFIG_FILE" vars) in
      elim (if path == "" then loaded target else load_from_file deps path target) [
        | failed e ↦ failed e
        | loaded filled ↦ populate_from_env deps vars filled ""
      ]
