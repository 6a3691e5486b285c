-- ===== src/Go/Jsons.antt =====
-- JSON values as encoding/json reads and writes them. Keys of an object are distinct,
-- and written as the tags of the structs are (encoding/json reads other cases of them too).
use drive_power.Prelude.{ℤ, pos, Bool, String, ◌==◌, string_eq, if◌then◌else◌}
use drive_power.Prelude.Int.{is_int64}
use drive_power.Go.Errors.{Result, ok, err, mismatch, Time, zero_time}
use drive_power.Go.Platforms.{Platform}

-- `int` is a number written without fraction and exponent, `float` any other number; `time` is a
-- text in the form of RFC 3339, with the instant that it denotes.
mutual
  pub data Json (R : Type 0) : Type 0 where
    null : Json R
    bool : Bool → Json R
    int : ℤ → Json R
    float : R → Json R
    str : String → Json R
    time : String → Time → Json R
    arr : Items R → Json R
    obj : Fields R → Json R

  pub data Items (R : Type 0) : Type 0 where
    nil : Items R
    cons : Json R → Items R → Items R

  pub data Fields (R : Type 0) : Type 0 where
    end : Fields R
    field : String → Json R → Fields R → Fields R

module _ {R : Type 0} where
  -- A missing key and a null both leave the field of a struct at its zero value.
  unfoldable pub get : String → Fields R → Json R
  get k end = null
  get k (field j v r) = if j == k then v else get k r

  -- A struct is decoded from an object; null leaves it zero.
  unfoldable pub fields_of : Json R → Result (Fields R)
  fields_of (obj fs) = ok fs
  fields_of null = ok end
  fields_of _ = err mismatch

  unfoldable pub as_int64 : Json R → Result ℤ
  as_int64 null = ok (pos 0)
  as_int64 (int z) = if is_int64 z then ok z else err mismatch
  as_int64 _ = err mismatch

  unfoldable pub as_string : Json R → Result String
  as_string null = ok ""
  as_string (str s) = ok s
  as_string (time s t) = ok s
  as_string _ = err mismatch

  unfoldable pub as_time : Json R → Result Time
  as_time null = ok zero_time
  as_time (time s t) = ok t
  as_time _ = err mismatch

module _ {R : Type 0} ⦃p : Platform R⦄ where
  unfoldable pub as_float : Json R → Result R
  as_float null = ok (p.of_int (pos 0))
  as_float (int z) = ok (p.of_int z)
  as_float (float x) = ok x
  as_float _ = err mismatch
