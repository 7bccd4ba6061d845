-- ===== src/Prelude/Select.antt =====
-- What `select` keeps: exactly the elements that pass its test, in their order.
use mathlib.Core.List.{Memᴰ, Sublist, nil-sublist}
use mathlib.Core.List.Sublist
use mathlib.Core.Logic.{◌↔◌, ◌⊎◌, inl, inr}
use mathlib.Core.Path.{◌≡◌, refl, sym, ◌∙◌, ap}
use mathlib.Core.Bool.{Bool, true, false}
use mathlib.Core.List.{List, [], ◌∷◌}
use spectral_cloud.Prelude.Lists.{select, keep_if}

module _ {ℓ} {A : Type ℓ} where
  mem-keep_if :
      (b : Bool) {a : A} (x : A) (rest : List A)
      → Memᴰ a (keep_if b x rest)
      → ((b ≡ true) × (a ≡ x)) ⊎ Memᴰ a rest
  mem-keep_if true x rest (Memᴰ.head e) = inl (refl, e)
  mem-keep_if true x rest (Memᴰ.tail m) = inr m
  mem-keep_if false x rest m = inr m

  mem-keep_if_of_mem :
      (b : Bool) {a : A} (x : A) (rest : List A) → Memᴰ a rest → Memᴰ a (keep_if b x rest)
  mem-keep_if_of_mem true x rest m = Memᴰ.tail m
  mem-keep_if_of_mem false x rest m = m

  mem-keep_if_head :
      (b : Bool) {a : A} (x : A) (rest : List A) → b ≡ true → a ≡ x → Memᴰ a (keep_if b x rest)
  mem-keep_if_head true x rest h e = Memᴰ.head e
  mem-keep_if_head false x rest h e = cc

module _ {ℓ} {A : Type ℓ} (p : A → Bool) where
  mem_of_mem-select : (a : A) (xs : List A) → Memᴰ a (select p xs) → Memᴰ a xs × (p a ≡ true)
  mem_of_mem-select a (x ∷ xs) m = elim (mem-keep_if (p x) x (select p xs) m) [
    | inl (h, e) ↦ (Memᴰ.head e, ap p e ∙ h)
    | inr r ↦ let (n, h) = mem_of_mem-select a xs r in (Memᴰ.tail n, h)
  ]
  mem_of_mem-select a [] m = elim m [ ]

  mem-select_of_mem : (a : A) (xs : List A) → Memᴰ a xs → p a ≡ true → Memᴰ a (select p xs)
  mem-select_of_mem a [] m h = elim m [ ]
  mem-select_of_mem a (x ∷ xs) (Memᴰ.head e) h =
      mem-keep_if_head (p x) x (select p xs) (ap p (sym e) ∙ h) e
  mem-select_of_mem a (x ∷ xs) (Memᴰ.tail m) h =
      mem-keep_if_of_mem (p x) x (select p xs) (mem-select_of_mem a xs m h)

  pub mem-select : (a : A) (xs : List A) → Memᴰ a (select p xs) ↔ (Memᴰ a xs × (p a ≡ true))
  mem-select a xs = (mem_of_mem-select a xs, λ m. mem-select_of_mem a xs m.0 m.1)

  pub select-sublist : (xs : List A) → Sublist (select p xs) xs
  select-sublist [] = nil-sublist []
  select-sublist (x ∷ xs) = kept (p x) (select-sublist xs)
    where
      kept : (b : Bool) → Sublist (select p xs) xs → Sublist (keep_if b x (select p xs)) (x ∷ xs)
      kept true s = Sublist.cons-cons x s
      kept false s = Sublist.cons x s
