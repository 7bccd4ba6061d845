-- ===== src/Prelude/Dict.antt =====
-- A Go map with string keys, as an association list. Go leaves the order of iteration open, and
-- the order of the list is any: what is proved of a loop over a map is proved of every order.
use Prim.Native.String.{String}
use mathlib.Core.Path.{◌≡◌, refl}
use mathlib.Core.Option.{Option, none, some}
use mathlib.Core.Bool.{true, false}
use mathlib.Core.List.{List, [], ◌∷◌, map}
use native.Mathlib.Omega.{arith}
use text.Mathlib.Text.{◌==◌}
use text.Mathlib.TextEquality.{eq_iff}
use text.Mathlib.TextPositions.{eq_refl}
use mathlib.Core.Logic.{inl, inr}
use spectral_cloud.Prelude.Tests.{if◌then◌else◌, Bool-cases}
use spectral_cloud.Prelude.Lists.{All}

abbrev pub Dict {ℓ} : Type ℓ → Type ℓ
Dict V = List (String × V)

module _ {ℓ} {V : Type ℓ} where
  -- m[k], with `none` for a missing key
  unfoldable pub lookup : String → Dict V → Option V
  lookup key [] = none
  lookup key ((k, v) ∷ rest) =
      let other = lookup key rest in elim (key == k) [ true ↦ some v | false ↦ other ]

  -- m[k] = v, in the place of the entry that it replaces
  unfoldable pub insert : String → V → Dict V → Dict V
  insert key new [] = (key, new) ∷ []
  insert key new ((k, v) ∷ rest) =
      let other = insert key new rest in
      elim (key == k) [ true ↦ (key, new) ∷ rest | false ↦ (k, v) ∷ other ]

  -- delete(m, k)
  unfoldable pub remove : String → Dict V → Dict V
  remove key [] = []
  remove key ((k, v) ∷ rest) =
      let other = remove key rest in elim (key == k) [ true ↦ other | false ↦ (k, v) ∷ other ]

  abbrev pub values : Dict V → List V
  values m = map (λ e. e.1) m

  pub lookup-insert :
      (key asked : String) (new : V) (m : Dict V)
      → lookup asked (insert key new m) ≡ (if asked == key then some new else lookup asked m)
  unfolding lookup insert
  lookup-insert key asked new [] = ground arith
  lookup-insert key asked new ((k, v) ∷ rest) =
      ground
        (arith, eq_iff asked key, eq_iff asked k, eq_iff key k, lookup-insert key asked new rest)

  pub lookup-remove :
      (key asked : String) (m : Dict V)
      → lookup asked (remove key m) ≡ (if asked == key then none else lookup asked m)
  unfolding lookup remove
  lookup-remove key asked [] = ground arith
  lookup-remove key asked ((k, v) ∷ rest) =
      ground (arith, eq_iff asked key, eq_iff asked k, eq_iff key k, lookup-remove key asked rest)

  pub lookup-nil : (k : String) → lookup k [] ≡ none
  unfolding lookup
  lookup-nil k = refl

  -- To store what a key holds already changes nothing.
  pub insert_self : (k : String) (v : V) (m : Dict V) → lookup k m ≡ some v → insert k v m ≡ m
  unfolding lookup insert
  insert_self k v [] h = cc
  insert_self k v ((j, w) ∷ m) h = ground (arith, eq_iff k j, insert_self k v m)

  -- A bound key is looked up to some value.
  abbrev pub Bound : Dict V → String → Type ℓ
  Bound m k = (v : V) × (lookup k m ≡ some v)

  Bound-cons : (k j : String) (w : V) (m : Dict V) → Bound m k → Bound ((j, w) ∷ m) k
  unfolding lookup
  Bound-cons k j w m (v, e) = elim (Bool-cases (k == j)) [
    | inl same ↦ (w, rw (same, lookup))
    | inr other ↦ (v, rw (other, lookup) e)
  ]

  Bound-weaken :
      (j : String) (w : V) (m : Dict V) (ks : List String)
      → All (Bound m) ks
      → All (Bound ((j, w) ∷ m)) ks
  Bound-weaken j w m [] h = tt
  Bound-weaken j w m (k ∷ ks) h = (Bound-cons k j w m h.0, Bound-weaken j w m ks h.1)

  abbrev pub keys : Dict V → List String
  keys m = map (λ e. e.0) m

  pub keys-Bound : (m : Dict V) → All (Bound m) (keys m)
  unfolding lookup
  keys-Bound [] = tt
  keys-Bound ((j, w) ∷ m) =
      ((w, ground (arith, eq_refl j)), Bound-weaken j w m (keys m) (keys-Bound m))

pub ruleset dict_laws = (lookup-nil, lookup-insert, lookup-remove)
