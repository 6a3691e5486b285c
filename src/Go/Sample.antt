-- ===== src/Go/Sample.antt =====
-- A platform to run the definitions on: the integers stand for float64.
use drive_power.Prelude.{ℤ, pos, refl, arith, ◌/◌, ltb_ℤ, leb_ℤ}
use drive_power.Prelude.Int.{◌-ℤ◌, ◌*ℤ◌}
use drive_power.Go.Platforms.{Platform, FloatLaws}

abbrev quotient : ℤ → ℤ → ℤ
quotient (pos a) (pos b) = pos (a / b)
quotient _ _ = pos 0

instance abbrev pub sample_platform : Platform ℤ
sample_platform = record {
  of_int = λ z. z;
  to_int = λ z. z;
  sub = ◌-ℤ◌;
  mul = ◌*ℤ◌;
  div = quotient;
  lt = ltb_ℤ;
  le = leb_ℤ;
  format_time = λ t. "2026-01-01T00:00:00Z";
  error_text = λ e. "error";
}

pub sample_laws : FloatLaws ℤ
sample_laws = record { to_int-of_int = λ n h. refl; le-of_int = λ a b h k. ground arith }
