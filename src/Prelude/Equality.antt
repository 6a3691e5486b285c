-- ===== src/Prelude/Equality.antt =====
-- Decidable equality as an instance argument: `==` in the source, on numbers, integers and texts.
use Prim.Native.Nat.{ℕ}
use Prim.Native.String.{String}
use mathlib.Core.Path.{◌≡◌, refl}
use mathlib.Core.Logic.{◌↔◌, ◌≢◌}
use mathlib.Core.Bool.{Bool, true, false}
use native.Mathlib.Omega.{arith}
use text.Mathlib.Text.{◌==◌ as str_eq}
use text.Mathlib.TextEquality.{eq_iff}
use drive_power.Prelude.Tests.{eqb, eqb_iff, if◌then◌else◌}
use drive_power.Prelude.Int.{ℤ, eqb_ℤ, eqb_ℤ_iff}

pub record Eq {ℓ} (A : Type ℓ) : Type ℓ where
  pub test : A → A → Bool
  pub test_iff : (x y : A) → (test x y ≡ true) ↔ (x ≡ y)

infix 50 ◌==◌
abbrev pub ◌==◌ {ℓ} : {A : Type ℓ} ⦃eq : Eq A⦄ → A → A → Bool
◌==◌ ⦃eq⦄ = eq.test

instance abbrev pub int_eq : Eq ℤ
int_eq = record { test_iff = eqb_ℤ_iff; test = eqb_ℤ }

instance abbrev pub string_eq : Eq String
string_eq = record { test_iff = eq_iff; test = str_eq }

instance abbrev pub nat_eq : Eq ℕ
nat_eq = record { test_iff = eqb_iff; test = eqb }

module _ {ℓ} {A : Type ℓ} ⦃eq : Eq A⦄ where
  pub ==_iff : (a b : A) → ((a == b) ≡ true) ↔ (a ≡ b)
  ==_iff = eq.test_iff

  pub ==_refl : (a : A) → (a == a) ≡ true
  ==_refl a = (eq.test_iff a a).1 refl

  pub if-same {κ} : {B : Type κ} (a b : A) (x y : B) → a ≡ b → (if a == b then x else y) ≡ x
  if-same a b x y same = ground (arith, ==_iff a b)

  pub if-other {κ} : {B : Type κ} (a b : A) (x y : B) → a ≢ b → (if a == b then x else y) ≡ y
  if-other a b x y other = ground (arith, ==_iff a b)

  -- Two values that the test tells apart differ.
  pub ==_differ : (a b : A) → (a == b) ≡ false → a ≢ b
  ==_differ a b q e = ground (arith, (==_iff a b).1 e, q)
