-- ===== src/Jobs/Mirror.antt =====
-- pkg/jobs/jobs.go: the entries of the store under the keys of the jobs.
use Prim.Native.String.{◌++◌ as str_append}
use spectral_cloud.Prelude.{
  String, ◌≡◌, refl, Bool, true, false, Option, none, some, arith, eq_iff, if◌then◌else◌,
  Option-cases, Bool-cases, inl, inr, ap, ◌∙◌, sym, ◌==◌, ◌&&◌,
}
use spectral_cloud.Prelude.Dict.{Dict, lookup, insert, remove, lookup-insert, lookup-remove}
use spectral_cloud.Prelude.Decimal.{strip_prefix-append}
use spectral_cloud.Persist.{Host, Codec, Works, Readable}
use spectral_cloud.Jobs.Record.{Job, job_key_prefix}
use spectral_cloud.Jobs.{Queue, persist, unpersist, store_job}
use spectral_cloud.Jobs.Ids.{IsNumbered}

abbrev pub store_key : String → String
store_key id = str_append job_key_prefix id

store_key_eq : (a b : String) → (store_key a == store_key b) ≡ (a == b)
store_key_eq a b = ground (
  arith,
  eq_iff a b,
  eq_iff (store_key a) (store_key b),
  strip_prefix-append job_key_prefix a,
  strip_prefix-append job_key_prefix b,
)

abbrev pub owned : {P : Type 0} → String → Option (Job P) → Option (Job P)
owned tenant none = none
owned tenant (some j) = if j.tenant == tenant then some j else none

module _ {h : Host} (codec : Codec h (Job h.Payload)) (w : Works h) where
  abbrev pub read : Option h.Data → Option (Job h.Payload)
  read none = none
  read (some v) = codec.decode v

  -- The job that the store has for a tenant under an identifier.
  abbrev pub saved : h.Db → String → String → Option (Job h.Payload)
  saved d tenant id = read (w.get d tenant (store_key id))

  -- A job of a named tenant that is read back from its JSON form.
  abbrev pub Storable : Job h.Payload → Type 0
  Storable j = ((j.tenant == "") ≡ false) × Readable codec j

  abbrev pub Legible : Queue h → Type 0
  Legible q = (id : String) (j : Job h.Payload) → lookup id q.jobs ≡ some j → Storable j

  -- For each tenant and identifier, the store has the job of the queue if it is the tenant's.
  pub record Mirrors (q : Queue h) : Type 0 where
    pub store : h.Db
    pub is_store : q.db ≡ some store
    pub agrees : (tenant id : String) → saved store tenant id ≡ owned tenant (lookup id q.jobs)

  abbrev Agrees : h.Db → Dict (Job h.Payload) → Type 0
  Agrees d jobs = (tenant id : String) → saved d tenant id ≡ owned tenant (lookup id jobs)

  -- An entry of another tenant is none for this one.
  owned_other :
      (tenant id other : String) (jobs : Dict (Job h.Payload))
      → ((i : Job h.Payload) → lookup id jobs ≡ some i → i.tenant ≡ other)
      → (tenant == other) ≡ false
      → owned tenant (lookup id jobs) ≡ none
  owned_other tenant id other jobs same apart = elim (Option-cases (lookup id jobs)) [
    | inl e ↦ ap (owned tenant) e
    | inr (i, e) ↦
        ap (owned tenant) e
        ∙ ground (arith, same i e, apart, eq_iff i.tenant tenant, eq_iff tenant other)
  ]

  put-Agrees :
      (d : h.Db) (jobs : Dict (Job h.Payload)) (id : String) (j : Job h.Payload) (v : h.Data)
      → Agrees d jobs
      → (j.tenant == "") ≡ false
      → codec.decode v ≡ some j
      → j.id ≡ id
      → ((i : Job h.Payload) → lookup id jobs ≡ some i → i.tenant ≡ j.tenant)
      → Agrees (h.put j.tenant (store_key j.id) v d) (insert id j jobs)
  put-Agrees d jobs id j v agrees named back own same tenant k =
      let here : (store_key k == store_key j.id) ≡ (k == id) =
        store_key_eq k j.id ∙ ap (◌==◌ k) own in
      let after : saved (h.put j.tenant (store_key j.id) v d) tenant k
          ≡ read
              (if (tenant == j.tenant) && (k == id) then some v else w.get d tenant (store_key k)) =
        ap read (
          w.get-put j.tenant (store_key j.id) tenant (store_key k) v d named
          ∙ ap (λ b. if (tenant == j.tenant) && b then some v else w.get d tenant (store_key k))
              here) in
      let at : (b : Bool)
          → ((tenant == j.tenant) && (k == id)) ≡ b
          → saved (h.put j.tenant (store_key j.id) v d) tenant k
            ≡ read (if b then some v else w.get d tenant (store_key k)) =
        λ b f. after ∙ ap (λ c. read (if c then some v else w.get d tenant (store_key k))) f in
      elim (Bool-cases (k == id)) [
        | inl e ↦
            let key : k ≡ id = ground (arith, eq_iff k id, e) in
            elim (Bool-cases (tenant == j.tenant)) [
              | inl t ↦
                  at true (ground (arith, e, t))
                  ∙ back
                  ∙ ground (
                    arith,
                    e,
                    t,
                    lookup-insert id k j jobs,
                    eq_iff tenant j.tenant,
                    eq_iff j.tenant tenant,
                  )
              | inr t ↦
                  at false (ground (arith, e, t))
                  ∙ ap (saved d tenant) key
                  ∙ agrees tenant id
                  ∙ owned_other tenant id j.tenant jobs same t
                  ∙ ground (
                    arith,
                    e,
                    t,
                    lookup-insert id k j jobs,
                    eq_iff tenant j.tenant,
                    eq_iff j.tenant tenant,
                  )
            ]
        | inr e ↦
            at false (ground (arith, e))
            ∙ agrees tenant k
            ∙ ap (owned tenant) (ground (arith, e, lookup-insert id k j jobs))
      ]

  delete-Agrees :
      (d : h.Db) (jobs : Dict (Job h.Payload)) (id : String) (j : Job h.Payload)
      → Agrees d jobs
      → j.id ≡ id
      → lookup id jobs ≡ some j
      → Agrees (h.delete j.tenant (store_key j.id) d) (remove id jobs)
  delete-Agrees d jobs id j agrees own found tenant k =
      let here : (store_key k == store_key j.id) ≡ (k == id) =
        store_key_eq k j.id ∙ ap (◌==◌ k) own in
      let after : saved (h.delete j.tenant (store_key j.id) d) tenant k
          ≡ read
              (if (tenant == j.tenant) && (k == id) then none else w.get d tenant (store_key k)) =
        ap read (
          w.get-delete j.tenant (store_key j.id) tenant (store_key k) d
          ∙ ap (λ b. if (tenant == j.tenant) && b then none else w.get d tenant (store_key k))
              here) in
      let at : (b : Bool)
          → ((tenant == j.tenant) && (k == id)) ≡ b
          → saved (h.delete j.tenant (store_key j.id) d) tenant k
            ≡ read (if b then none else w.get d tenant (store_key k)) =
        λ b f. after ∙ ap (λ c. read (if c then none else w.get d tenant (store_key k))) f in
      elim (Bool-cases (k == id)) [
        | inl e ↦
            let key : k ≡ id = ground (arith, eq_iff k id, e) in
            let gone : owned tenant (lookup k (remove id jobs)) ≡ none =
              ap (owned tenant) {y = none} (lookup-remove id k jobs ∙ ground (arith, e)) in
            elim (Bool-cases (tenant == j.tenant)) [
              | inl t ↦ at true (ground (arith, e, t)) ∙ sym gone
              | inr t ↦
                  at false (ground (arith, e, t))
                  ∙ ap (saved d tenant) key
                  ∙ agrees tenant id
                  ∙ ap (owned tenant) found
                  ∙ ground (arith, t, eq_iff tenant j.tenant, eq_iff j.tenant tenant)
                  ∙ sym gone
            ]
        | inr e ↦
            at false (ground (arith, e))
            ∙ agrees tenant k
            ∙ ap (owned tenant) (ground (arith, e, lookup-remove id k jobs))
      ]

  pub store_job-Mirrors :
      (q : Queue h) (id : String) (j : Job h.Payload)
      → Mirrors q
      → j.id ≡ id
      → ((i : Job h.Payload) → lookup id q.jobs ≡ some i → i.tenant ≡ j.tenant)
      → Storable j
      → Mirrors (store_job codec q id j)
  unfolding store_job persist
  store_job-Mirrors q id j m own same (named, (v, e, back)) =
      rw (m.is_store, persist)
        (rw (e, persist)
          (record {
            store = h.put j.tenant (store_key j.id) v m.store;
            is_store = refl;
            agrees = put-Agrees m.store q.jobs id j v m.agrees named back own same;
          }))

  -- A change of a stored job that keeps its identifier and its tenant.
  pub rewrite-Mirrors :
      (q : Queue h) (id : String) (j x : Job h.Payload)
      → IsNumbered q
      → Mirrors q
      → lookup id q.jobs ≡ some j
      → x.id ≡ j.id
      → j.tenant ≡ x.tenant
      → Storable x
      → Mirrors (store_job codec q id x)
  rewrite-Mirrors q id j x v m e same_id same_tenant readable =
      store_job-Mirrors q id x m (same_id ∙ (v.each id j e).0)
        (λ i f. ground (arith, e, f) ∙ same_tenant) readable

  pub remove-Mirrors :
      (q : Queue h) (id : String) (j : Job h.Payload)
      → IsNumbered q
      → Mirrors q
      → lookup id q.jobs ≡ some j
      → (let u = unpersist codec q j in Mirrors (record u { jobs = remove id u.jobs }))
  unfolding unpersist
  remove-Mirrors q id j v m e =
      rw (m.is_store, unpersist)
        (record {
          store = h.delete j.tenant (store_key j.id) m.store;
          is_store = refl;
          agrees = delete-Agrees m.store q.jobs id j m.agrees (v.each id j e).0 e;
        })
