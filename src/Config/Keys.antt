-- ===== src/Config/Keys.antt =====
-- A configuration's keys and values (backend/libs/config), as its documentation has them.
use Prim.Native.String.{◌++◌}
use drive_power.Prelude.{
  String, Bool, true, false, ◌≡◌, refl, Option, none, some, if◌then◌else◌, lookup, arith, ◌==◌,
  string_eq, Bool-cases, inl, inr,
}
use drive_power.Go.{Result, ok, err, message}
use drive_power.Go.Texts.{to_upper, dashes_replaced}
use drive_power.Config.Model.{
  Leaf, text, flag, integer, unsigned, real, unsupported, FieldType, Outcome, loaded, failed, parse,
  Variables, Deps,
}
use drive_power.Config.Loader.{
  parse_bool, parse_bits, parse_uint, normalize_key, env_key, is_read, assign, from_env,
}

-- A name in upper case, with underscores for dashes.
abbrev pub upper_name : String → String
upper_name name = to_upper (dashes_replaced name)

-- The key of a field: its tag; or, without a tag, its name behind the key of the struct that it stands in.
unfoldable pub key_of : String → FieldType → String
key_of prefix field =
    if field.env_tag == ""
    then (if prefix == "" then upper_name field.name else prefix ++ "_" ++ upper_name field.name)
    else upper_name field.env_tag

-- A field that takes part: exported, and not tagged "-".
unfoldable pub takes_part : FieldType → Bool
takes_part field = if field.can_set then (if field.env_tag == "-" then false else true) else false

pub env_key-key_of :
    (prefix : String) (field : FieldType) → env_key prefix field ≡ key_of prefix field
unfolding env_key normalize_key key_of
env_key-key_of prefix field = refl

pub is_read-takes_part : (field : FieldType) → is_read field ≡ takes_part field
unfolding is_read takes_part
is_read-takes_part field = elim (Bool-cases (field.env_tag == "-")) [
  | inl e ↦ rw e (elim (Bool-cases field.can_set) [ inl c ↦ rw c refl | inr c ↦ rw c refl ])
  | inr e ↦ rw e (elim (Bool-cases field.can_set) [ inl c ↦ rw c refl | inr c ↦ rw c refl ])
]

module _ {R : Type 0} where
  -- A parsed value in its field, or the failure with the key.
  abbrev put : {A : Type 0} → String → (A → Leaf R) → Result A → Outcome (Leaf R)
  put key field (ok value) = loaded (field value)
  put key field (err e) = failed (parse key e)

  -- A text as the value of a field, by the kind of the field.
  unfoldable pub value_of : Deps R → String → Leaf R → String → Outcome (Leaf R)
  value_of deps key (text old) value = loaded (text value)
  value_of deps key (flag old) value = put key flag (parse_bool value)
  value_of deps key (integer bits old) value = put key (integer bits) (parse_bits bits value)
  value_of deps key (unsigned bits old) value = put key (unsigned bits) (parse_uint bits value)
  value_of deps key (real old) value = put key real (deps.parse_float value)
  value_of deps key (unsupported type) value =
      failed (parse key (message ("unsupported field type " ++ type)))

  -- What a field holds in the end: the value of its variable, or what it held where there is none.
  unfoldable pub settled : Deps R → Variables → String → Leaf R → Outcome (Leaf R)
  settled deps vars key leaf = elim (lookup key vars) [
    | none ↦ loaded leaf
    | some value ↦ value_of deps key leaf value
  ]

  assign-value_of :
      (deps : Deps R) (key : String) (leaf : Leaf R) (value : String)
      → (elim (assign deps leaf value) [ ok new ↦ loaded new | err e ↦ failed (parse key e) ])
        ≡ value_of deps key leaf value
  unfolding assign value_of
  assign-value_of deps key (text old) value = refl
  assign-value_of deps key (flag old) value = ground arith
  assign-value_of deps key (integer bits old) value = ground arith
  assign-value_of deps key (unsigned bits old) value = ground arith
  assign-value_of deps key (real old) value = ground arith
  assign-value_of deps key (unsupported type) value = refl

  pub from_env-settled :
      (deps : Deps R) (vars : Variables) (key : String) (leaf : Leaf R)
      → from_env deps vars key leaf ≡ settled deps vars key leaf
  unfolding from_env settled
  from_env-settled deps vars key leaf = go (lookup key vars)
    where
      go :
          (found : Option String)
          → (elim found [
            | none ↦ loaded leaf
            | some value ↦ elim (assign deps leaf value) [
              | ok new ↦ loaded new
              | err e ↦ failed (parse key e)
            ]
          ])
            ≡ (elim found [ none ↦ loaded leaf | some value ↦ value_of deps key leaf value ])
      go none = refl
      go (some value) = assign-value_of deps key leaf value
