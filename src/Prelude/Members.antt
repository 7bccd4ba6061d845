-- ===== src/Prelude/Members.antt =====
-- Membership in joined, gathered and sorted lists.
use mathlib.Core.List.{Memᴰ}
use mathlib.Core.Path.{◌≡◌, refl, ap, subst}
use mathlib.Core.Bool.{Bool}
use mathlib.Core.Logic.{◌↔◌, ◌⊎◌, inl, inr}
use mathlib.Core.List.{List, [], ◌∷◌, ◌++◌}
use mathlib.Core.Option.{some}
use Prim.Native.String.{String}
use native.Mathlib.Omega.{arith}
use text.Mathlib.Text.{◌==◌}
use text.Mathlib.TextEquality.{eq_iff}
use spectral_cloud.Prelude.Tests.{Bool-cases}
use spectral_cloud.Prelude.Dict.{Dict, lookup, keys}
use spectral_cloud.Prelude.Sort.{insert_by, sort_by}

module _ {ℓ} {A : Type ℓ} where
  pub mem-append : {a : A} (xs ys : List A) → Memᴰ a (xs ++ ys) → Memᴰ a xs ⊎ Memᴰ a ys
  mem-append [] ys m = inr m
  mem-append (x ∷ xs) ys (Memᴰ.head e) = inl (Memᴰ.head e)
  mem-append (x ∷ xs) ys (Memᴰ.tail m) = elim (mem-append xs ys m) [
    | inl n ↦ inl (Memᴰ.tail n)
    | inr n ↦ inr n
  ]

  mem_left : {a : A} (xs ys : List A) → Memᴰ a xs → Memᴰ a (xs ++ ys)
  mem_left (x ∷ xs) ys (Memᴰ.head e) = Memᴰ.head e
  mem_left (x ∷ xs) ys (Memᴰ.tail m) = Memᴰ.tail (mem_left xs ys m)
  mem_left [] ys m = elim m [ ]

  mem_right : {a : A} (xs ys : List A) → Memᴰ a ys → Memᴰ a (xs ++ ys)
  mem_right [] ys m = m
  mem_right (x ∷ xs) ys m = Memᴰ.tail (mem_right xs ys m)

  pub append_assoc : (xs ys zs : List A) → (xs ++ ys) ++ zs ≡ xs ++ (ys ++ zs)
  append_assoc [] ys zs = refl
  append_assoc (x ∷ xs) ys zs = ap (◌∷◌ x) (append_assoc xs ys zs)

  abbrev pub gather {κ} : {K : Type κ} → (K → List A) → List K → List A
  gather f [] = []
  gather f (k ∷ ks) = f k ++ gather f ks

  pub mem_of_mem-gather {κ} :
      {K : Type κ} {a : A} (f : K → List A) (ks : List K)
      → Memᴰ a (gather f ks)
      → (k : K) × Memᴰ a (f k)
  mem_of_mem-gather f [] m = elim m [ ]
  mem_of_mem-gather f (k ∷ ks) m = elim (mem-append (f k) (gather f ks) m) [
    | inl n ↦ (k, n)
    | inr n ↦ mem_of_mem-gather f ks n
  ]

  pub mem-gather_of_mem {κ} :
      {K : Type κ} {a : A} {k : K} (f : K → List A) (ks : List K)
      → Memᴰ k ks
      → Memᴰ a (f k)
      → Memᴰ a (gather f ks)
  mem-gather_of_mem f [] m n = elim m [ ]
  mem-gather_of_mem {a = a} f (j ∷ ks) (Memᴰ.head e) n =
      mem_left (f j) (gather f ks) (subst (λ x. Memᴰ a (f x)) e n)
  mem-gather_of_mem f (j ∷ ks) (Memᴰ.tail m) n =
      mem_right (f j) (gather f ks) (mem-gather_of_mem f ks m n)

module _ {ℓ} {A : Type ℓ} where
  mem-swap :
      {a : A} (x y : A) (xs ys : List A)
      → (Memᴰ a ys ↔ Memᴰ a (x ∷ xs))
      → (Memᴰ a (y ∷ ys) ↔ Memᴰ a (x ∷ y ∷ xs))
  mem-swap {a = a} x y xs ys h = (there, back)
    where
      under : Memᴰ a (x ∷ xs) → Memᴰ a (x ∷ y ∷ xs)
      under (Memᴰ.head e) = Memᴰ.head e
      under (Memᴰ.tail m) = Memᴰ.tail (Memᴰ.tail m)

      there : Memᴰ a (y ∷ ys) → Memᴰ a (x ∷ y ∷ xs)
      there (Memᴰ.head e) = Memᴰ.tail (Memᴰ.head e)
      there (Memᴰ.tail m) = under (h.0 m)

      back : Memᴰ a (x ∷ y ∷ xs) → Memᴰ a (y ∷ ys)
      back (Memᴰ.head e) = Memᴰ.tail (h.1 (Memᴰ.head e))
      back (Memᴰ.tail (Memᴰ.head e)) = Memᴰ.head e
      back (Memᴰ.tail (Memᴰ.tail m)) = Memᴰ.tail (h.1 (Memᴰ.tail m))

  mem-cons_iff :
      {a : A} (x : A) (xs ys : List A)
      → (Memᴰ a xs ↔ Memᴰ a ys)
      → (Memᴰ a (x ∷ xs) → Memᴰ a (x ∷ ys))
  mem-cons_iff x xs ys h (Memᴰ.head e) = Memᴰ.head e
  mem-cons_iff x xs ys h (Memᴰ.tail m) = Memᴰ.tail (h.0 m)

module _ {ℓ} {A : Type ℓ} (less : A → A → Bool) where
  mem-insert_by : {a : A} (x : A) (ys : List A) → Memᴰ a (insert_by less x ys) ↔ Memᴰ a (x ∷ ys)
  unfolding insert_by
  mem-insert_by x [] = (λ m. m, λ m. m)
  mem-insert_by x (y ∷ ys) = elim (Bool-cases (less y x)) [
    | inl e ↦ rw (e, insert_by) (mem-swap x y ys (insert_by less x ys) (mem-insert_by x ys))
    | inr e ↦ rw (e, insert_by) (λ m. m, λ m. m)
  ]

  pub mem-sort_by : {a : A} (xs : List A) → Memᴰ a (sort_by less xs) ↔ Memᴰ a xs
  unfolding sort_by
  mem-sort_by [] = (λ m. m, λ m. m)
  mem-sort_by (x ∷ xs) =
      let top = mem-insert_by x (sort_by less xs) in
      let rest = mem-sort_by xs in
      (
        λ m. mem-cons_iff x (sort_by less xs) xs rest (top.0 m),
        λ m. top.1 (mem-cons_iff x xs (sort_by less xs) (rest.1, rest.0) m),
      )

pub mem-keys {ℓ} :
    {V : Type ℓ} (k : String) (v : V) (m : Dict V) → lookup k m ≡ some v → Memᴰ k (keys m)
unfolding lookup
mem-keys k v [] h = absurd (ground arith)
mem-keys k v ((j, w) ∷ m) h = elim (Bool-cases (k == j)) [
  | inl e ↦ Memᴰ.head (ground (arith, eq_iff k j))
  | inr e ↦ Memᴰ.tail (mem-keys k v m (ground arith))
]
