-- ===== src/Config/Durations.antt =====
-- Durations and addresses of a configuration.
use Prim.Native.String.{◌++◌}
use drive_power.Prelude.{
  ℕ, ◌*◌, ◌^◌, ◌<◌, ℤ, pos, String, true, ◌≡◌, refl, arith, Bool-cases, inl, inr, if◌then◌else◌,
}
use drive_power.Prelude.Int.{◌*ℤ◌, wrap64}
use drive_power.Go.Texts.{has_prefix, without_prefix-append}
use drive_power.Config.Model.{Fields}
use drive_power.Config.Values.{duration, address}

-- A positive number of units whose nanoseconds are an int64 gives these.
duration-pos :
    (unit n : ℕ) (default : ℤ)
    → 0 < n
    → n * unit < 2 ^ 63
    → duration unit default (pos n) ≡ pos (n * unit)
unfolding duration ◌*ℤ◌ wrap64
duration-pos unit n default h k = ground (arith, h, k)

has_prefix_self : (p s : String) → has_prefix (p ++ s) p ≡ true
unfolding has_prefix
has_prefix_self p s = rw (has_prefix, without_prefix-append p s) refl

colon_added :
    (port : String) → has_prefix (if has_prefix port ":" then port else ":" ++ port) ":" ≡ true
colon_added port = elim (Bool-cases (has_prefix port ":")) [
  | inl h ↦ rw (h) h
  | inr h ↦ rw (h) (has_prefix_self ":" port)
]

-- HTTPAddress gives an address that starts with a colon.
address-colon :
    {R : Type 0} (port : String) (cfg : Fields R) → has_prefix (address port cfg) ":" ≡ true
unfolding address
address-colon port cfg = colon_added _
