-- ===== src/Prelude/Ranges.antt =====
-- Facts about the numbers below a bound that are proved by evaluation.
use Prim.Native.Nat.{ℕ, zero, suc, ◌<◌}
use mathlib.Core.Path.{◌≡◌}
use mathlib.Core.Bool.{Bool, true, ◌&&◌}
use native.Mathlib.Omega.{arith}

-- A test of all numbers below a bound, by evaluation.
unfoldable pub check_all : ℕ → (ℕ → Bool) → Bool
check_all zero p = true
check_all (suc n) p = p n && check_all n p

pub check_all_sound : (n : ℕ) (p : ℕ → Bool) (x : ℕ) → check_all n p ≡ true → x < n → p x ≡ true
unfolding check_all
check_all_sound zero p x h k = absurd (omega arith)
check_all_sound (suc n) p x h k = ground (arith, check_all_sound n p x)
