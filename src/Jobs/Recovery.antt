-- ===== src/Jobs/Recovery.antt =====
-- pkg/jobs/jobs.go: a load of what a history of calls has stored.
use mathlib.Core.Option.{some-injective}
use mathlib.Core.List.{Memᴰ}
use spectral_cloud.Prelude.{
  ◌+◌, ◌<◌, String, ◌≡◌, refl, true, none, some, List, [], ◌∷◌, arith, if◌then◌else◌, Option-cases,
  Bool-cases, inl, inr, ap, ◌∙◌, sym, ◌==◌,
}
use spectral_cloud.Prelude.Int.{word}
use spectral_cloud.Prelude.Clock.{Time}
use spectral_cloud.Prelude.Dict.{lookup, keys, lookup-nil}
use spectral_cloud.Prelude.Decimal.{strip_prefix-append}
use spectral_cloud.Persist.{Host, Codec, Works}
use spectral_cloud.Jobs.Record.{Job, job_key_prefix, claim_matches, tenant_claim_matches}
use spectral_cloud.Jobs.{
  Queue, new_queue_with_store, decode_all, restore, load_from_store, get, claim, claim_for_tenant,
  expire_one, expire_stale, prune_one, prune,
}
use spectral_cloud.Prelude.Sweep.{sweep-keeps}
use spectral_cloud.Jobs.Ids.{IsNumbered}
use spectral_cloud.Jobs.Claims.{best_from-lookup}
use spectral_cloud.Jobs.Effects.{lookup-expire_stale}
use spectral_cloud.Jobs.Mirrored.{
  ExpiredLegible, take-Mirrors, update-Mirrors, cancel-Mirrors, expire_one-Kept, prune_one-Kept,
  submit-Mirrors, Kept,
}
use spectral_cloud.Prelude.Prefix.{append-strip_prefix}
use spectral_cloud.Jobs.Restore.{
  decode_all_mem, mem-decode_all, lookup-restore, lookup-restore_mem, db-restore, From,
}
use spectral_cloud.Jobs.Mirror.{Legible, Mirrors, saved, owned, read, store_key}
use spectral_cloud.Jobs.History.{
  Call, submits, updates, cancels, claims, claims_for, expires, prunes, loads, step, run, Room,
  step-IsNumbered, start-IsNumbered,
}

module _ {h : Host} (codec : Codec h (Job h.Payload)) (w : Works h) where
  -- What a scan of a tenant finds is what the queue has of the tenant.
  scanned :
      (q : Queue h) (m : Mirrors codec w q) (tenant : String) (vs : List h.Data)
      → IsNumbered q
      → h.scan tenant job_key_prefix m.store ≡ some vs
      → (j : Job h.Payload) → Memᴰ j (decode_all codec vs)
      → (lookup j.id q.jobs ≡ some j) × ((j.tenant == tenant) ≡ true)
  scanned q m tenant vs v e j l =
      let (x, in_scan, back) = decode_all_mem codec vs j l in
      let (k, r, rest, at) = w.scan_sound tenant job_key_prefix m.store vs x e in_scan in
      let whole : k ≡ store_key r = append-strip_prefix job_key_prefix k r rest in
      let held : saved codec w m.store tenant r ≡ some j =
        ap (read codec w) (ap (w.get m.store tenant) (sym whole) ∙ at) ∙ back in
      let mine : owned tenant (lookup r q.jobs) ≡ some j = sym (m.agrees tenant r) ∙ held in
      elim (Option-cases (lookup r q.jobs)) [
        | inl n ↦ absurd (ground (arith, n, mine))
        | inr (i, n) ↦ elim (Bool-cases (i.tenant == tenant)) [
          | inl t ↦
              let same : i ≡ j =
                some-injective i j
                  (sym (ap (owned tenant) n ∙ ap (λ b. if b then some i else none) t) ∙ mine) in
              (
                ap (λ z. lookup z q.jobs) (ap (λ z. z.id) (sym same) ∙ (v.each r i n).0)
                    ∙ n
                    ∙ ap some same,
                ap (λ z. z.tenant == tenant) (sym same) ∙ t,
              )
          | inr t ↦ absurd (ground (arith, n, mine, t))
        ]
      ]

  load-Mirrors :
      (q : Queue h) (tenant : String)
      → IsNumbered q
      → Mirrors codec w q
      → Mirrors codec w (load_from_store codec q tenant).0
  unfolding load_from_store
  load-Mirrors q tenant v m =
      let (vs, e) = w.scans tenant job_key_prefix m.store in
      let js = decode_all codec vs in
      let unchanged : (k : String) → lookup k (restore codec q js).jobs ≡ lookup k q.jobs = λ k.
        elim (lookup-restore codec js q (λ i. lookup i q.jobs)
          (λ j l. (scanned q m tenant vs v e j l).0) k) [ inl f ↦ f | inr f ↦ f ] in
      rw (m.is_store, load_from_store)
        (rw (e, load_from_store)
          (record {
            store = m.store;
            is_store = db-restore codec js q ∙ m.is_store;
            agrees = λ t k. m.agrees t k ∙ ap (owned t) (sym (unchanged k));
          }))

  step-Mirrors :
      (q : Queue h) (c : Time × Call h.Payload)
      → IsNumbered q
      → Mirrors codec w q
      → q.counter + 1 < word
      → Legible codec w (step codec q c)
      → Mirrors codec w (step codec q c)
  unfolding step claim claim_for_tenant expire_stale prune
  step-Mirrors q (now, submits t a c p o) v m room l =
      submit-Mirrors codec w q t a c p o now v m room l
  step-Mirrors q (now, updates id s r e) v m room l = update-Mirrors codec w q id s r e now v m l
  step-Mirrors q (now, cancels id) v m room l = cancel-Mirrors codec w q id now v m l
  step-Mirrors q (now, claims a c) v m room l =
      take-Mirrors codec w q _ a now v m
        (λ j e. (best_from-lookup (claim_matches a c) a now q j v e).0) l
  step-Mirrors q (now, claims_for t a c) v m room l =
      take-Mirrors codec w q _ a now v m
        (λ j e. (best_from-lookup (tenant_claim_matches t a c) a now q j v e).0) l
  step-Mirrors q (now, expires) v m room l =
      (sweep-keeps (expire_one codec now) (λ s. Kept codec w s × ExpiredLegible codec w now s)
        (expire_one-Kept codec w now) (keys q.jobs) (q, 0)
        ((v, m), λ k j e. l k j (lookup-expire_stale codec q now k ∙ e))).0.1
  step-Mirrors q (now, prunes age) v m room l =
      (sweep-keeps (prune_one codec age now) (Kept codec w) (prune_one-Kept codec w age now)
        (keys q.jobs) (q, 0) (v, m)).1
  step-Mirrors q (now, loads t) v m room l = load-Mirrors q t v m

  -- After each call of the history every job of the queue can be stored.
  abbrev pub StaysLegible : List (Time × Call h.Payload) → Queue h → Type 0
  StaysLegible [] q = Unit
  StaysLegible (c ∷ cs) q = Legible codec w (step codec q c) × StaysLegible cs (step codec q c)

  run-Mirrors :
      (cs : List (Time × Call h.Payload)) (q : Queue h)
      → IsNumbered q
      → Mirrors codec w q
      → Room codec cs q
      → StaysLegible cs q
      → IsNumbered (run codec cs q) × Mirrors codec w (run codec cs q)
  unfolding run
  run-Mirrors [] q v m room l = (v, m)
  run-Mirrors (c ∷ cs) q v m room l =
      run-Mirrors cs (step codec q c) (step-IsNumbered codec q c v room.0)
        (step-Mirrors q c v m room.0 l.0) room.1 l.1

  stored_value :
      (d : h.Db) (tenant k : String) (j : Job h.Payload)
      → saved codec w d tenant k ≡ some j
      → (x : h.Data) × (w.get d tenant (store_key k) ≡ some x) × (codec.decode x ≡ some j)
  stored_value d tenant k j e = elim (Option-cases (w.get d tenant (store_key k))) [
    | inl n ↦ absurd (ground (arith, n, e))
    | inr (x, n) ↦ (x, n, sym (ap (read codec w) n) ∙ e)
  ]

  owned_id :
      (q : Queue h) (tenant k : String) (j : Job h.Payload)
      → IsNumbered q
      → owned tenant (lookup k q.jobs) ≡ some j
      → j.id ≡ k
  owned_id q tenant k j v e = elim (Option-cases (lookup k q.jobs)) [
    | inl n ↦ absurd (ground (arith, n, e))
    | inr (i, n) ↦ elim (Bool-cases (i.tenant == tenant)) [
      | inl t ↦
          let mine : owned tenant (lookup k q.jobs) ≡ some i =
            ap (owned tenant) n ∙ ap (λ b. if b then some i else none) t in
          ap (λ z. z.id) (some-injective j i (sym e ∙ mine)) ∙ (v.each k i n).0
      | inr t ↦ absurd (ground (arith, n, e, t))
    ]
  ]

  -- A new queue over the store of a mirrored one, after a load of a tenant.
  loaded_lookup :
      (q : Queue h) (tenant k : String)
      → IsNumbered q
      → (m : Mirrors codec w q)
      → lookup k (load_from_store codec (new_queue_with_store codec m.store) tenant).0.jobs
        ≡ owned tenant (lookup k q.jobs)
  unfolding load_from_store new_queue_with_store
  loaded_lookup q tenant k v m =
      let (vs, e) = w.scans tenant job_key_prefix m.store in
      let js = decode_all codec vs in
      let start = new_queue_with_store codec m.store in
      let source : From codec (λ i. owned tenant (lookup i q.jobs)) js = λ j l.
        let (a, b) = scanned q m tenant vs v e j l in
        ap (owned tenant) a ∙ ap (λ c. if c then some j else none) b in
      rw (e, load_from_store)
        (elim (lookup-restore codec js start (λ i. owned tenant (lookup i q.jobs)) source k) [
          | inr f ↦ f
          | inl f ↦ elim (Option-cases (owned tenant (lookup k q.jobs))) [
            | inl n ↦ f ∙ lookup-nil k ∙ sym n
            | inr (j, n) ↦
                let (x, at, back) = stored_value m.store tenant k j (m.agrees tenant k ∙ n) in
                let in_scan =
                  w.scan_complete tenant job_key_prefix m.store vs x (store_key k) k e
                    (strip_prefix-append job_key_prefix k) at in
                let here : lookup j.id (restore codec start js).jobs ≡ some j =
                  lookup-restore_mem codec js start (λ i. owned tenant (lookup i q.jobs)) source j
                    (mem-decode_all codec vs x j in_scan back) in
                ap (λ i. lookup i (restore codec start js).jobs) (sym (owned_id q tenant k j v n))
                ∙ here
                ∙ sym n
          ]
        ])

  -- Over a store that works and at first has no job, take any history of calls in which the counter
  -- stays below the largest `uint64` and after each of which every job of the queue is of a tenant
  -- with a name that is not empty, and has a JSON form that is read back as that job. Then the store
  -- has every job as the queue has it: a new queue over that store that loads a tenant finds under
  -- each identifier the job of the old queue if it is the tenant's, and nothing else.
  pub load-run :
      (d : h.Db) (cs : List (Time × Call h.Payload)) (tenant : String)
      → ((t id : String) → w.get d t (store_key id) ≡ none)
      → Room codec cs (new_queue_with_store codec d)
      → StaysLegible cs (new_queue_with_store codec d)
      → (let q = run codec cs (new_queue_with_store codec d) in
          (s : h.Db) × (q.db ≡ some s)
          × ((id : String)
              → get codec (load_from_store codec (new_queue_with_store codec s) tenant).0 id
                ≡ owned tenant (get codec q id)))
  unfolding get new_queue_with_store
  load-run d cs tenant clean room legible =
      let q0 = new_queue_with_store codec d in
      let empty : Mirrors codec w q0 = record {
        store = d;
        is_store = refl;
        agrees = λ t k. ap (read codec w) (clean t k) ∙ ap (owned t) (sym (lookup-nil k));
      } in
      let (v, m) = run-Mirrors cs q0 (start-IsNumbered codec d) empty room legible in
      (m.store, m.is_store, λ id. loaded_lookup (run codec cs q0) tenant id v m)
