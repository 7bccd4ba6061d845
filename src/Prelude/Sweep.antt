-- ===== src/Prelude/Sweep.antt =====
-- A loop over a map that may change or delete the entry that it visits.
use mathlib.Core.Path.{◌≡◌, refl, ap, ◌∙◌}
use mathlib.Core.Bool.{Bool, true, false, ◌||◌}
use mathlib.Core.Logic.{inl, inr}
use mathlib.Core.List.{List, [], ◌∷◌}
use mathlib.Core.Option.{Option, none}
use Prim.Native.String.{String}
use native.Mathlib.Omega.{arith}
use text.Mathlib.Text.{◌==◌}
use spectral_cloud.Prelude.Tests.{if◌then◌else◌, Bool-cases}
use spectral_cloud.Prelude.Dict.{Dict, lookup, keys}

-- for k := range m { visit(k) }
unfoldable pub sweep {ℓ} : {S : Type ℓ} → (S → String → S) → S → List String → S
sweep visit s [] = s
sweep visit s (k ∷ ks) = sweep visit (visit s k) ks

-- What every visit keeps, the loop keeps.
pub sweep-keeps {ℓ κ} :
    {S : Type ℓ} (visit : S → String → S) (P : S → Type κ)
    → ((s : S) (k : String) → P s → P (visit s k))
    → (ks : List String) (s : S) → P s
    → P (sweep visit s ks)
unfolding sweep
sweep-keeps visit P keep [] s p = p
sweep-keeps visit P keep (k ∷ ks) s p = sweep-keeps visit P keep ks (visit s k) (keep s k p)

abbrev contains : String → List String → Bool
contains k [] = false
contains k (j ∷ js) = k == j || contains k js

not_contains {ℓ} :
    {V : Type ℓ} (k : String) (m : Dict V) → contains k (keys m) ≡ false → lookup k m ≡ none
unfolding lookup
not_contains k [] h = refl
not_contains k ((j, v) ∷ m) h = ground (arith, not_contains k m)

module _ {ℓ κ} {S : Type ℓ} {V : Type κ} (visit : S → String → S) (view : S → String → Option V)
    (f : Option V → Option V) (idem : (o : Option V) → f (f o) ≡ f o)
    (effect : (s : S) (j k : String)
      → view (visit s j) k ≡ (if k == j then f (view s k) else view s k)) where
  sweep-view :
      (ks : List String) (s : S) (k : String)
      → view (sweep visit s ks) k ≡ (if contains k ks then f (view s k) else view s k)
  unfolding sweep
  sweep-view [] s k = refl
  sweep-view (j ∷ js) s k =
      sweep-view js (visit s j) k ∙ step (k == j) (contains k js) (effect s j k)
    where
      step :
          (here later : Bool) {o : Option V}
          → o ≡ (if here then f (view s k) else view s k)
          → (if later then f o else o) ≡ (if here || later then f (view s k) else view s k)
      step true true e = ap f e ∙ idem (view s k)
      step true false e = e
      step false true e = ap f e
      step false false e = e

  -- Where the keys are those of a map, every entry has been visited: a key that is not among them
  -- has no entry, and `f` leaves it so.
  pub sweep-keys :
      (m : Dict V) (s : S) (k : String)
      → view s k ≡ lookup k m
      → f none ≡ none
      → view (sweep visit s (keys m)) k ≡ f (lookup k m)
  sweep-keys m s k start empty = elim (Bool-cases (contains k (keys m))) [
    | inl e ↦ sweep-view (keys m) s k ∙ ground (arith, e, start)
    | inr e ↦ sweep-view (keys m) s k ∙ ground (arith, e, start, not_contains k m e, empty)
  ]
