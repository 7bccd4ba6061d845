-- ===== src/Persist/Memory.antt =====
-- A store in memory that keeps what `Works` asks for, for the theorems at concrete inputs.
use mathlib.Core.List.{Memᴰ}
use mathlib.Core.Path.{subst}
use mathlib.Core.Option.{none-ne-some, some-injective}
use spectral_cloud.Prelude.{
  String, ◌≡◌, refl, Option, none, some, List, [], ◌∷◌, ◌==◌, ◌&&◌, arith, eq_iff, if◌then◌else◌,
  Bool-cases, inl, inr, ap, ◌∙◌, sym,
}
use spectral_cloud.Prelude.Decimal.{strip_prefix}
use spectral_cloud.Prelude.Members.{gather, mem_of_mem-gather, mem-gather_of_mem}
use spectral_cloud.Persist.{Host, Works}

-- `names` lists the keys that are in use, and maybe others.
pub record Table (A : Type 0) : Type 0 where
  pub find : String → String → Option A
  pub names : List String
  pub covers : (t k : String) (v : A) → find t k ≡ some v → Memᴰ k names

module _ {A : Type 0} where
  abbrev pub empty : Table A
  empty = record { find = λ t k. none; names = []; covers = λ t k v e. absurd (none-ne-some v e) }

  pub put_covers :
      (t k : String) (v : A) (d : Table A) (u j : String) (x : A)
      → (if (u == t) && (j == k) then some v else d.find u j) ≡ some x
      → Memᴰ j (k ∷ d.names)
  put_covers t k v d u j x e = elim (Bool-cases (j == k)) [
    | inl s ↦ Memᴰ.head (ground (arith, eq_iff j k, s))
    | inr s ↦ Memᴰ.tail (d.covers u j x (ground (arith, s, e)))
  ]

  pub delete_covers :
      (t k : String) (d : Table A) (u j : String) (x : A)
      → (if (u == t) && (j == k) then none else d.find u j) ≡ some x
      → Memᴰ j d.names
  delete_covers t k d u j x e = elim (Bool-cases ((u == t) && (j == k))) [
    | inl s ↦ absurd (ground (arith, s, e))
    | inr s ↦ d.covers u j x (ground (arith, s, e))
  ]

  abbrev pub under : String → Table A → String → String → List A
  under t d p k = elim (strip_prefix p k) [
    | none ↦ []
    | some r ↦ elim (d.find t k) [ none ↦ [] | some v ↦ v ∷ [] ]
  ]

  pub under_sound :
      (t p k : String) (d : Table A) (v : A)
      → Memᴰ v (under t d p k)
      → (r : String) × (strip_prefix p k ≡ some r) × (d.find t k ≡ some v)
  under_sound t p k d v m = go (strip_prefix p k) (d.find t k) refl refl m
    where
      go :
          (o : Option String) (f : Option A)
          → strip_prefix p k ≡ o
          → d.find t k ≡ f
          → Memᴰ v (elim o [ none ↦ [] | some r ↦ elim f [ none ↦ [] | some x ↦ x ∷ [] ] ])
          → (r : String) × (strip_prefix p k ≡ some r) × (d.find t k ≡ some v)
      go none f a b n = elim n [ ]
      go (some r) none a b n = elim n [ ]
      go (some r) (some x) a b (Memᴰ.head e) = (r, a, b ∙ ap some (sym e))
      go (some r) (some x) a b (Memᴰ.tail n) = elim n [ ]

  pub under_complete :
      (t p k : String) (d : Table A) (v : A) (r : String)
      → strip_prefix p k ≡ some r
      → d.find t k ≡ some v
      → Memᴰ v (under t d p k)
  under_complete t p k d v r a b = rw (a, under) (rw (b, under) (Memᴰ.head refl))

module _ (P A : Type 0) where
  abbrev pub memory : Host
  memory = record {
    Payload = P;
    Data = A;
    Db = Table A;
    put = λ t k v d. record {
      find = λ u j. if (u == t) && (j == k) then some v else d.find u j;
      names = k ∷ d.names;
      covers = put_covers t k v d;
    };
    delete = λ t k d. record {
      find = λ u j. if (u == t) && (j == k) then none else d.find u j;
      names = d.names;
      covers = delete_covers t k d;
    };
    scan = λ t p d. some (gather (under t d p) d.names);
  }

  abbrev pub memory_works : Works memory
  memory_works = record {
    get = λ d t k. d.find t k;
    get-put = λ t k u j v d named. refl;
    get-delete = λ t k u j d. refl;
    scans = λ t p d. (gather (under t d p) d.names, refl);
    scan_sound = λ t p d l v e m.
        let (k, n) =
          mem_of_mem-gather (under t d p) d.names
            (subst (λ x. Memᴰ v x) (sym (some-injective (gather (under t d p) d.names) l e)) m) in
        let (r, a, b) = under_sound t p k d v n in (k, r, a, b);
    scan_complete = λ t p d l v k r e a b.
        subst (λ x. Memᴰ v x) (some-injective (gather (under t d p) d.names) l e)
          (mem-gather_of_mem (under t d p) d.names (d.covers t k v b)
            (under_complete t p k d v r a b));
  }
