-- ===== src/Prelude/Maps.antt =====
-- Go's maps as association lists. The program never depends on the order of a map's entries.
use mathlib.Core.Path.{◌≡◌, refl, sym, ◌∙◌}
use mathlib.Core.Logic.{inl, inr}
use mathlib.Core.List.{List, [], ◌∷◌}
use mathlib.Core.Option.{Option, none, some}
use native.Mathlib.Omega.{arith}
use drive_power.Prelude.Tests.{Bool-cases, if◌then◌else◌}
use drive_power.Prelude.Equality.{Eq, ◌==◌, ==_iff, ==_refl}

abbrev pub Assoc {ℓ κ} : Type ℓ → Type κ → Type (ℓ ⊔ κ)
Assoc K V = List (K × V)

module _ {ℓ κ} {K : Type ℓ} {V : Type κ} ⦃e : Eq K⦄ where
  -- m[k], with the second result of the comma-ok form
  unfoldable pub lookup : K → Assoc K V → Option V
  lookup key [] = none
  lookup key (entry ∷ rest) = if entry.0 == key then some entry.1 else lookup key rest

  -- m[k] = v
  unfoldable pub insert : K → V → Assoc K V → Assoc K V
  insert key value [] = (key, value) ∷ []
  insert key value (entry ∷ rest) =
      if entry.0 == key then (key, value) ∷ rest else entry ∷ insert key value rest

  -- delete(m, k)
  unfoldable pub delete : K → Assoc K V → Assoc K V
  delete k [] = []
  delete k ((j, v) ∷ m) = let rest = delete k m in if j == k then rest else (j, v) ∷ rest

  pub lookup-insert :
      (key other : K) (value : V) (m : Assoc K V)
      → lookup other (insert key value m) ≡ (if key == other then some value else lookup other m)
  unfolding insert lookup
  lookup-insert key other value [] = refl
  lookup-insert key other value (entry ∷ rest) =
      let below = lookup-insert key other value rest in
      ground (arith, ==_iff entry.0 key, ==_iff entry.0 other, ==_iff key other, below)

  pub lookup-delete :
      (k j : K) (m : Assoc K V) → lookup j (delete k m) ≡ (if k == j then none else lookup j m)
  unfolding lookup delete
  lookup-delete k j [] = ground arith
  lookup-delete k j ((i, w) ∷ m) =
      ground (arith, ==_iff k j, ==_iff i k, ==_iff i j, lookup-delete k j m)

  pub lookup-insert_self : (k : K) (v : V) (m : Assoc K V) → lookup k (insert k v m) ≡ some v
  lookup-insert_self k v m = simp (lookup-insert, ==_refl)

  pub lookup-delete_self : (k : K) (m : Assoc K V) → lookup k (delete k m) ≡ none
  lookup-delete_self k m = simp (lookup-delete, ==_refl)

  -- The keys of a map are distinct.
  unfoldable pub IsKeyed : Assoc K V → Type κ
  unfolding lookup
  IsKeyed [] = Unit
  IsKeyed ((k, v) ∷ m) = (lookup k m ≡ none) × IsKeyed m

  pub insert-IsKeyed : (k : K) (v : V) (m : Assoc K V) → IsKeyed m → IsKeyed (insert k v m)
  unfolding IsKeyed insert lookup
  insert-IsKeyed k v [] keyed = (refl, tt)
  insert-IsKeyed k v ((j, w) ∷ m) keyed = elim (Bool-cases (j == k)) [
    | inl e ↦ rw e (rw (sym ((==_iff j k).0 e)) keyed.0, keyed.1)
    | inr e ↦ rw e (
      lookup-insert k j v m ∙ ground (arith, ==_iff k j, ==_iff j k, keyed.0),
      insert-IsKeyed k v m keyed.1,
    )
  ]
