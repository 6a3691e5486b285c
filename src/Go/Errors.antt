-- ===== src/Go/Errors.antt =====
-- Error values and times of Go.
use drive_power.Prelude.{◌≡◌, refl, arith, ℕ, Bool, String, ◌==◌, nat_eq}

-- `errors.New` and `fmt.Errorf`, the errors of database/sql that the code can meet, a JSON value of
-- the wrong type, and any other error of a driver or a socket.
pub data Error : Type 0 where
  message : String → Error
  no_rows null_scan foreign_key mismatch : Error
  driver : ℕ → Error

pub data Result {ℓ} (A : Type ℓ) : Type ℓ where
  ok : A → Result A
  err : Error → Result A

infixl 5 ◌>>=◌
abbrev pub ◌>>=◌ {ℓ κ} : {A : Type ℓ} {B : Type κ} → Result A → (A → Result B) → Result B
ok a >>= f = f a
err e >>= f = err e

-- An instant of time.Time, in nanoseconds from the start of the year 0.
abbrev pub Time : Type 0
Time = ℕ

-- The zero value of time.Time is the start of the year 1; the year 0 has 366 days.
abbrev pub zero_time : Time
zero_time = 31622400000000000

abbrev pub is_zero : Time → Bool
is_zero t = t == zero_time

pub >>=-ok {ℓ κ} :
    {A : Type ℓ} {B : Type κ} (r : Result A) (f : A → Result B) (b : B)
    → (r >>= f) ≡ ok b
    → (a : A) × (r ≡ ok a) × (f a ≡ ok b)
>>=-ok (ok a) f b q = (a, refl, q)
>>=-ok (err e) f b q = ground arith
