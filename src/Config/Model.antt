-- ===== src/Config/Model.antt =====
-- The structs that LoadConfig fills in, as package reflect shows them.
use drive_power.Prelude.{ℤ, ℕ, String, Bool, Assoc}
use drive_power.Go.{Error, Result}

-- A field that is no struct, by its kind. The sizes of numbers are in bits.
pub data Leaf (R : Type 0) : Type 0 where
  text : String → Leaf R
  flag : Bool → Leaf R
  integer : ℕ → ℤ → Leaf R
  unsigned : ℕ → ℕ → Leaf R
  real : R → Leaf R
  unsupported : String → Leaf R

pub record FieldType : Type 0 where
  pub name : String
  pub env_tag : String
  pub can_set : Bool

-- The fields of a struct in their order. An embedded field is a struct; for another one the code
-- panics.
pub data Fields (R : Type 0) : Type 0 where
  no_fields : Fields R
  leaf_field : FieldType → Leaf R → Fields R → Fields R
  struct_field : FieldType → Fields R → Fields R → Fields R
  embedded : Bool → Fields R → Fields R → Fields R

-- What LoadConfig and Load fail with: errors.New, and the errors that fmt.Errorf wraps.
pub data Failure : Type 0 where
  refused : String → Failure
  read_file decode_yaml : Error → Failure
  parse : String → Error → Failure

pub data Outcome {ℓ} (A : Type ℓ) : Type ℓ where
  loaded : A → Outcome A
  failed : Failure → Outcome A

-- One outcome after another. Where the first fails, it counts.
abbrev pub both {ℓ} : {A B C : Type ℓ} → (A → B → C) → Outcome A → Outcome B → Outcome C
both f (failed e) r = failed e
both f (loaded a) (failed e) = failed e
both f (loaded a) (loaded b) = loaded (f a b)

abbrev pub on_loaded {ℓ} : {A B : Type ℓ} → (A → B) → Outcome A → Outcome B
on_loaded f (failed e) = failed e
on_loaded f (loaded a) = loaded (f a)

-- The variables of the environment.
abbrev pub Variables : Type 0
Variables = Assoc String String

-- os.ReadFile, yaml.Unmarshal and strconv.ParseFloat
pub record Deps (R : Type 0) : Type 0 where
  pub read : String → Result String
  pub unmarshal : String → Fields R → Result (Fields R)
  pub parse_float : String → Result R
