-- ===== src/Jobs/Restore.antt =====
-- pkg/jobs/jobs.go: what a load makes of a queue.
use mathlib.Core.Path.{subst}
use mathlib.Core.List.{Memᴰ}
use spectral_cloud.Prelude.{
  String, ◌≡◌, ◌⊎◌, refl, Option, none, some, List, [], ◌∷◌, arith, eq_iff, eq_refl, Option-cases,
  Bool-cases, inl, inr, ap, ◌∙◌, sym, ◌==◌,
}
use spectral_cloud.Prelude.Dict.{Dict, lookup, insert, lookup-insert}
use spectral_cloud.Persist.{Host, Codec}
use spectral_cloud.Jobs.Record.{Job}
use spectral_cloud.Jobs.{Queue, decode_all, restore}

module _ {h : Host} (codec : Codec h (Job h.Payload)) where
  pub decode_all_mem :
      (vs : List h.Data) (j : Job h.Payload)
      → Memᴰ j (decode_all codec vs)
      → (v : h.Data) × Memᴰ v vs × (codec.decode v ≡ some j)
  unfolding decode_all
  decode_all_mem [] j m = elim m [ ]
  decode_all_mem (v ∷ vs) j m = later (codec.decode v) refl m (decode_all_mem vs j)
    where
      later :
          (o : Option (Job h.Payload))
          → codec.decode v ≡ o
          → Memᴰ j (elim o [ none ↦ decode_all codec vs | some i ↦ i ∷ decode_all codec vs ])
          → (Memᴰ j (decode_all codec vs) → (x : h.Data) × Memᴰ x vs × (codec.decode x ≡ some j))
          → (x : h.Data) × Memᴰ x (v ∷ vs) × (codec.decode x ≡ some j)
      later none e n again = let (x, l, f) = again n in (x, Memᴰ.tail l, f)
      later (some i) e (Memᴰ.head f) again = (v, Memᴰ.head refl, e ∙ ap some (sym f))
      later (some i) e (Memᴰ.tail n) again = let (x, l, f) = again n in (x, Memᴰ.tail l, f)

  pub mem-decode_all :
      (vs : List h.Data) (v : h.Data) (j : Job h.Payload)
      → Memᴰ v vs
      → codec.decode v ≡ some j
      → Memᴰ j (decode_all codec vs)
  unfolding decode_all
  mem-decode_all (x ∷ vs) v j (Memᴰ.head f) e =
      let first : codec.decode x ≡ some j = ap codec.decode (sym f) ∙ e in
      rw (first, decode_all) (Memᴰ.head refl)
  mem-decode_all (x ∷ vs) v j (Memᴰ.tail m) e =
      let rest = mem-decode_all vs v j m e in
      elim (Option-cases (codec.decode x)) [
        | inl n ↦ rw (n, decode_all) rest
        | inr (i, n) ↦ rw (n, decode_all) (Memᴰ.tail rest)
      ]
  mem-decode_all [] v j m e = elim m [ ]

  -- Every job of the list is what `jobs` has under its identifier.
  abbrev pub From : (String → Option (Job h.Payload)) → List (Job h.Payload) → Type 0
  From jobs js = (j : Job h.Payload) → Memᴰ j js → jobs j.id ≡ some j

  -- A load stores under a key what it held before, or what `jobs` has.
  pub lookup-restore :
      (js : List (Job h.Payload)) (q : Queue h) (jobs : String → Option (Job h.Payload))
      → From jobs js
      → (k : String)
      → (lookup k (restore codec q js).jobs ≡ lookup k q.jobs)
        ⊎ (lookup k (restore codec q js).jobs ≡ jobs k)
  unfolding restore
  lookup-restore [] q jobs all k = inl refl
  lookup-restore (j ∷ js) q jobs all k =
      let here = lookup-insert j.id k j q.jobs in
      elim (lookup-restore js _ jobs (λ i m. all i (Memᴰ.tail m)) k) [
        | inl e ↦ elim (Bool-cases (k == j.id)) [
          | inl t ↦ inr (e ∙ ground (arith, here, t, eq_iff k j.id, all j (Memᴰ.head refl)))
          | inr t ↦ inl (e ∙ ground (arith, here, t))
        ]
        | inr e ↦ inr e
      ]

  pub lookup-restore_mem :
      (js : List (Job h.Payload)) (q : Queue h) (jobs : String → Option (Job h.Payload))
      → From jobs js
      → (j : Job h.Payload) → Memᴰ j js
      → lookup j.id (restore codec q js).jobs ≡ some j
  unfolding restore
  lookup-restore_mem [] q jobs all j m = elim m [ ]
  lookup-restore_mem (x ∷ js) q jobs all j (Memᴰ.head f) =
      let added : Dict (Job h.Payload) = insert x.id x q.jobs in
      let first : lookup x.id added ≡ some x =
        lookup-insert x.id x.id x q.jobs ∙ rw (eq_refl x.id) refl in
      subst (λ i. lookup i.id (restore codec q (x ∷ js)).jobs ≡ some i) (sym f)
        (elim (lookup-restore js _ jobs (λ i n. all i (Memᴰ.tail n)) x.id) [
          | inl e ↦ e ∙ first
          | inr e ↦ e ∙ all x (Memᴰ.head refl)
        ])
  lookup-restore_mem (x ∷ js) q jobs all j (Memᴰ.tail m) =
      lookup-restore_mem js _ jobs (λ i n. all i (Memᴰ.tail n)) j m

  pub db-restore : (js : List (Job h.Payload)) (q : Queue h) → (restore codec q js).db ≡ q.db
  unfolding restore
  db-restore [] q = refl
  db-restore (j ∷ js) q = db-restore js _
