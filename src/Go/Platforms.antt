-- ===== src/Go/Platforms.antt =====
-- float64, the texts of times and the texts of errors: parameters, with the laws of IEEE 754 that the
-- code relies on.
use drive_power.Go.Errors.{Error}
use drive_power.Prelude.{ℕ, ℤ, pos, Bool, String, ◌≡◌, ◌≤◌, ◌^◌, leb}

-- `R` stands for float64. `of_int` and `to_int` are the conversions float64(n) and int64(x).
pub record Platform (R : Type 0) : Type 0 where
  pub of_int : ℤ → R
  pub to_int : R → ℤ
  pub sub : R → R → R
  pub mul : R → R → R
  pub div : R → R → R
  pub lt : R → R → Bool
  pub le : R → R → Bool
  pub format_time : ℕ → String
  pub error_text : Error → String

-- Integers up to 2 ^ 53 are float64 values: they are compared, and come back, exactly.
pub record FloatLaws (R : Type 0) ⦃p : Platform R⦄ : Type 0 where
  pub to_int-of_int : (n : ℕ) → n ≤ 2 ^ 53 → p.to_int (p.of_int (pos n)) ≡ pos n
  pub le-of_int :
      (a b : ℕ) → a ≤ 2 ^ 53 → b ≤ 2 ^ 53 → p.le (p.of_int (pos a)) (p.of_int (pos b)) ≡ leb a b
