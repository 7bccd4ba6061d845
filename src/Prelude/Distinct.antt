-- ===== src/Prelude/Distinct.antt =====
-- A dictionary with one entry for each key, and the loop over the values of such a map.
use mathlib.Core.List.{Memᴰ}
use Prim.Native.String.{String}
use mathlib.Core.Path.{◌≡◌}
use mathlib.Core.Option.{none, some}
use mathlib.Core.Bool.{false}
use mathlib.Core.List.{[], ◌∷◌}
use mathlib.Core.Logic.{inl, inr}
use native.Mathlib.Omega.{arith}
use text.Mathlib.Text.{◌==◌}
use text.Mathlib.TextEquality.{eq_iff}
use text.Mathlib.TextPositions.{eq_refl}
use spectral_cloud.Prelude.Tests.{Bool-cases}
use spectral_cloud.Prelude.Dict.{
  Dict, lookup, insert, remove, values, lookup-nil, lookup-insert, lookup-remove,
}

module _ {ℓ} {V : Type ℓ} where
  abbrev pub Distinct : Dict V → Type ℓ
  Distinct [] = Unit
  Distinct ((k, v) ∷ m) = (lookup k m ≡ none) × Distinct m

  absent-insert :
      (k j : String) (v : V) (m : Dict V)
      → k == j ≡ false
      → lookup j m ≡ none
      → lookup j (insert k v m) ≡ none
  absent-insert k j v m e h = ground (arith, lookup-insert k j v m, eq_iff k j, eq_iff j k)

  pub insert-Distinct : (k : String) (v : V) (m : Dict V) → Distinct m → Distinct (insert k v m)
  unfolding insert
  insert-Distinct k v [] d = (lookup-nil k, tt)
  insert-Distinct k v ((j, w) ∷ m) d = elim (Bool-cases (k == j)) [
    | inl e ↦ rw (e, insert) (ground (arith, eq_iff k j), d.1)
    | inr e ↦ rw (e, insert) (absent-insert k j v m e d.0, insert-Distinct k v m d.1)
  ]

  pub remove-Distinct : (k : String) (m : Dict V) → Distinct m → Distinct (remove k m)
  unfolding remove
  remove-Distinct k [] d = d
  remove-Distinct k ((j, w) ∷ m) d = elim (Bool-cases (k == j)) [
    | inl e ↦ rw (e, remove) (remove-Distinct k m d.1)
    | inr e ↦
        rw (e, remove) (ground (arith, lookup-remove k j m, eq_iff k j), remove-Distinct k m d.1)
  ]

  -- What stands in the map is found under its key, and what is found stands in it.
  pub mem_values-lookup :
      (v : V) (m : Dict V) → Distinct m → Memᴰ v (values m) → (k : String) × (lookup k m ≡ some v)
  unfolding lookup
  mem_values-lookup v [] d h = elim h [ ]
  mem_values-lookup v ((j, w) ∷ m) d (Memᴰ.head e) = (j, ground (arith, eq_refl j))
  mem_values-lookup v ((j, w) ∷ m) d (Memᴰ.tail h) =
      let (k, e) = mem_values-lookup v m d.1 h in (k, ground (arith, eq_iff k j))

  pub lookup-mem_values :
      (k : String) (v : V) (m : Dict V) → lookup k m ≡ some v → Memᴰ v (values m)
  unfolding lookup
  lookup-mem_values k v [] h = absurd (ground arith)
  lookup-mem_values k v ((j, w) ∷ m) h = elim (Bool-cases (k == j)) [
    | inl e ↦ Memᴰ.head ground arith
    | inr e ↦ Memᴰ.tail (lookup-mem_values k v m ground arith)
  ]
