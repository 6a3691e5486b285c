-- ===== src/Config/Values.antt =====
-- What the methods of Config have in common in the packages config of the services: a field of a
-- struct of the configuration, an address to listen on, and a number of seconds or minutes.
use Prim.Native.String.{◌++◌}
use drive_power.Prelude.{
  ℕ, ◌*◌, ◌^◌, ℤ, pos, String, Bool, true, Option, none, some, leb_ℤ, if◌then◌else◌, ◌==◌,
  string_eq,
}
use drive_power.Prelude.Int.{◌*ℤ◌, wrap64}
use drive_power.Go.Texts.{trim_space, has_prefix}
use drive_power.Config.Model.{
  Leaf, text, flag, integer, unsigned, real, unsupported, FieldType, Fields, no_fields, leaf_field,
  struct_field, embedded, refused, Outcome, loaded, failed,
}

-- A field with a tag `env`, of a string or an int.
abbrev pub tagged : String → String → FieldType
tagged name tag = record { name = name; env_tag = tag; can_set = true }

module _ {R : Type 0} where
  abbrev pub text_field : String → String → String → Fields R → Fields R
  text_field name tag value rest = leaf_field (tagged name tag) (text value) rest

  abbrev pub int_field : String → String → ℤ → Fields R → Fields R
  int_field name tag value rest = leaf_field (tagged name tag) (integer 64 value) rest

  abbrev pub section_field : String → Fields R → Fields R → Fields R
  section_field name inner rest = struct_field (tagged name "") inner rest

  unfoldable pub section_of : String → Fields R → Fields R
  section_of name no_fields = no_fields
  section_of name (leaf_field field leaf rest) = section_of name rest
  section_of name (struct_field field inner rest) =
      let after = section_of name rest in if field.name == name then inner else after
  section_of name (embedded can_set inner rest) = section_of name rest

  unfoldable pub leaf_of : String → Fields R → Option (Leaf R)
  leaf_of name no_fields = none
  leaf_of name (leaf_field field leaf rest) =
      let after = leaf_of name rest in if field.name == name then some leaf else after
  leaf_of name (struct_field field inner rest) = leaf_of name rest
  leaf_of name (embedded can_set inner rest) = leaf_of name rest

  abbrev as_text : Option (Leaf R) → String
  as_text (some (text s)) = s
  as_text (some (flag b)) = ""
  as_text (some (integer bits n)) = ""
  as_text (some (unsigned bits n)) = ""
  as_text (some (real x)) = ""
  as_text (some (unsupported type)) = ""
  as_text none = ""

  abbrev as_int : Option (Leaf R) → ℤ
  as_int (some (integer bits n)) = n
  as_int (some (text s)) = pos 0
  as_int (some (flag b)) = pos 0
  as_int (some (unsigned bits n)) = pos 0
  as_int (some (real x)) = pos 0
  as_int (some (unsupported type)) = pos 0
  as_int none = pos 0

  -- cfg.Section.Name
  unfoldable pub text_at : String → String → Fields R → String
  text_at section name cfg = as_text (leaf_of name (section_of section cfg))

  unfoldable pub int_at : String → String → Fields R → ℤ
  int_at section name cfg = as_int (leaf_of name (section_of section cfg))

  -- cfg.Section.Name = value
  unfoldable pub set_leaf : String → ℤ → Fields R → Fields R
  set_leaf name value no_fields = no_fields
  set_leaf name value (leaf_field field leaf rest) =
      let after = set_leaf name value rest in
      if field.name == name
      then leaf_field field (integer 64 value) rest
      else leaf_field field leaf after
  set_leaf name value (struct_field field inner rest) =
      struct_field field inner (set_leaf name value rest)
  set_leaf name value (embedded can_set inner rest) =
      embedded can_set inner (set_leaf name value rest)

  unfoldable pub set_int : String → String → ℤ → Fields R → Fields R
  set_int section name value no_fields = no_fields
  set_int section name value (leaf_field field leaf rest) =
      leaf_field field leaf (set_int section name value rest)
  set_int section name value (struct_field field inner rest) =
      let after = set_int section name value rest in
      if field.name == section
      then struct_field field (set_leaf name value inner) rest
      else struct_field field inner after
  set_int section name value (embedded can_set inner rest) =
      embedded can_set inner (set_int section name value rest)

  -- HTTPAddress, with the port that stands for none.
  unfoldable pub address : String → Fields R → String
  address default_port cfg =
      let given = trim_space (text_at "HTTP" "Port" cfg) in
      let port = if given == "" then default_port else given in
      if has_prefix port ":" then port else ":" ++ port

  -- A check of Load.
  abbrev pub refuse_if : Bool → String → Outcome (Fields R) → Outcome (Fields R)
  refuse_if test why rest = if test then failed (refused why) else rest

  abbrev pub after_loading :
      (Fields R → Outcome (Fields R)) → Outcome (Fields R) → Outcome (Fields R)
  after_loading checks (failed e) = failed e
  after_loading checks (loaded cfg) = checks cfg

-- time.Second and time.Minute
abbrev pub second : ℕ
second = 10 ^ 9

abbrev pub minute : ℕ
minute = 60 * 10 ^ 9

-- A number of units as a time.Duration, an int64 of nanoseconds.
unfoldable pub duration : ℕ → ℤ → ℤ → ℤ
duration unit default n = if leb_ℤ n (pos 0) then default else wrap64 (n *ℤ pos unit)
