-- ===== src/Jobs/Mirrored.antt =====
-- pkg/jobs/jobs.go: the store after each call.
use spectral_cloud.Prelude.{
  ℕ, ◌+◌, ◌%◌, ◌<◌, String, ◌≡◌, refl, Option, none, some, arith, Option-cases, Bool-cases, inl,
  inr, ap, ◌∙◌, sym, eq_refl, ◌==◌, if◌then◌else◌,
}
use spectral_cloud.Prelude.Int.{word}
use spectral_cloud.Prelude.Clock.{Time, Duration}
use spectral_cloud.Prelude.Dict.{lookup}
use spectral_cloud.Persist.{Host, Codec, Works}
use spectral_cloud.Jobs.Record.{Job, SubmitOptions, job_id, is_terminal, is_stale, is_old, make_job}
use spectral_cloud.Jobs.Effects.{
  is_stale_eq, expired, expired_idem, lookup-expire_one, lookup-store_job,
}
use spectral_cloud.Jobs.{
  Queue, store_job, submit_with_opts, update, cancel, take_job, expire_one, prune_one,
}
use spectral_cloud.Jobs.Ids.{IsNumbered}
use spectral_cloud.Jobs.Mirror.{
  Storable, Legible, Mirrors, store_job-Mirrors, rewrite-Mirrors, remove-Mirrors,
}
use spectral_cloud.Jobs.History.{next_id-unused, expire_one-IsNumbered, prune_one-IsNumbered}

module _ {h : Host} (codec : Codec h (Job h.Payload)) (w : Works h) where
  lookup-store_self :
      (q : Queue h) (id : String) (j : Job h.Payload)
      → lookup id (store_job codec q id j).jobs ≡ some j
  lookup-store_self q id j = lookup-store_job codec q id id j ∙ rw (eq_refl id) refl

  pub take-Mirrors :
      (q : Queue h) (o : Option (Job h.Payload)) (agent_id : String) (now : Time)
      → IsNumbered q
      → Mirrors codec w q
      → ((j : Job h.Payload) → o ≡ some j → lookup j.id q.jobs ≡ some j)
      → Legible codec w (take_job codec q o agent_id now).0
      → Mirrors codec w (take_job codec q o agent_id now).0
  unfolding take_job
  take-Mirrors q none agent_id now v m f l = m
  take-Mirrors q (some j) agent_id now v m f l =
      rewrite-Mirrors codec w q j.id j _ v m (f j refl) refl refl
        (l j.id _ (lookup-store_self q j.id _))

  pub update-Mirrors :
      (q : Queue h) (id s r e : String) (now : Time)
      → IsNumbered q
      → Mirrors codec w q
      → Legible codec w (update codec q id s r e now).0
      → Mirrors codec w (update codec q id s r e now).0
  unfolding update
  update-Mirrors q id s r x now v m l = elim (Option-cases (lookup id q.jobs)) [
    | inl e ↦ rw (e, update) m
    | inr (j, e) ↦
        let k : Job h.Payload = record j { status = s; result = r; error = x; updated_at = now } in
        let stored : lookup id (update codec q id s r x now).0.jobs ≡ some k =
          rw (e, update) (lookup-store_self q id k) in
        rw (e, update) (rewrite-Mirrors codec w q id j k v m e refl refl (l id k stored))
  ]

  pub cancel-Mirrors :
      (q : Queue h) (id : String) (now : Time)
      → IsNumbered q
      → Mirrors codec w q
      → Legible codec w (cancel codec q id now).0
      → Mirrors codec w (cancel codec q id now).0
  unfolding cancel
  cancel-Mirrors q id now v m l = elim (Option-cases (lookup id q.jobs)) [
    | inl e ↦ rw (e, cancel) m
    | inr (j, e) ↦ elim (Bool-cases (is_terminal j.status)) [
      | inl t ↦ rw (e, cancel) (rw (t, cancel) m)
      | inr t ↦
          let k : Job h.Payload = record j { status = "cancelled"; updated_at = now } in
          let stored : lookup id (cancel codec q id now).0.jobs ≡ some k =
            rw (e, cancel) (rw (t, cancel) (lookup-store_self q id k)) in
          rw (e, cancel)
            (rw (t, cancel) (rewrite-Mirrors codec w q id j k v m e refl refl (l id k stored)))
    ]
  ]

  -- What the loops of `ExpireStale` and `Prune` keep.
  abbrev pub Kept : Queue h × ℕ → Type 0
  Kept s = IsNumbered s.0 × Mirrors codec w s.0

  -- What the loop of `ExpireStale` leaves of the entries can be stored.
  abbrev pub ExpiredLegible : Time → Queue h × ℕ → Type 0
  ExpiredLegible now s =
      (k : String) (j : Job h.Payload)
      → expired codec now (lookup k s.0.jobs) ≡ some j
      → Storable codec w j

  expire_one-ExpiredLegible :
      (now : Time) (s : Queue h × ℕ) (id : String)
      → ExpiredLegible now s
      → ExpiredLegible now (expire_one codec now s id)
  expire_one-ExpiredLegible now (q, n) id l k j e =
      let old = lookup k q.jobs in
      let now_there = lookup-expire_one codec now q n id k in
      let same : expired codec now (if k == id then expired codec now old else old)
          ≡ expired codec now old =
        elim (Bool-cases (k == id)) [
          | inl t ↦ rw t (expired_idem codec now old)
          | inr t ↦ rw t refl
        ] in
      l k j (sym same ∙ sym (ap (expired codec now) now_there) ∙ e)

  pub expire_one-Kept :
      (now : Time) (s : Queue h × ℕ) (id : String)
      → Kept s × ExpiredLegible now s
      → Kept (expire_one codec now s id) × ExpiredLegible now (expire_one codec now s id)
  unfolding expire_one
  expire_one-Kept now (q, n) id ((v, m), l) = (
    (
      expire_one-IsNumbered codec now (q, n) id v,
      elim (Option-cases (lookup id q.jobs)) [
        | inl e ↦ rw (e, expire_one) m
        | inr (j, e) ↦ elim (Bool-cases (is_stale now j)) [
          | inl t ↦
              let k : Job h.Payload = record j {
                status = "failed";
                error = "ttl expired";
                updated_at = now;
              } in
              let becomes : expired codec now (lookup id q.jobs) ≡ some k =
                ap (expired codec now) e
                ∙ ap (λ b. if b then some k else some j) (sym (is_stale_eq now j) ∙ t) in
              rw (e, expire_one)
                (rw (t, expire_one)
                  (rewrite-Mirrors codec w q id j k v m e refl refl (l id k becomes)))
          | inr t ↦ rw (e, expire_one) (rw (t, expire_one) m)
        ]
      ],
    ),
    expire_one-ExpiredLegible now (q, n) id l,
  )

  pub prune_one-Kept :
      (age : Duration) (now : Time) (s : Queue h × ℕ) (id : String)
      → Kept s
      → Kept (prune_one codec age now s id)
  unfolding prune_one
  prune_one-Kept age now (q, n) id (v, m) = (
    prune_one-IsNumbered codec age now (q, n) id v,
    elim (Option-cases (lookup id q.jobs)) [
      | inl e ↦ rw (e, prune_one) m
      | inr (j, e) ↦ elim (Bool-cases (is_old age now j)) [
        | inl t ↦ rw (e, prune_one) (rw (t, prune_one) (remove-Mirrors codec w q id j v m e))
        | inr t ↦ rw (e, prune_one) (rw (t, prune_one) m)
      ]
    ],
  )

  pub submit-Mirrors :
      (q : Queue h) (t a c : String) (p : h.Payload) (o : SubmitOptions) (now : Time)
      → IsNumbered q
      → Mirrors codec w q
      → q.counter + 1 < word
      → Legible codec w (submit_with_opts codec q t a c p o now).0
      → Mirrors codec w (submit_with_opts codec q t a c p o now).0
  unfolding submit_with_opts make_job
  submit-Mirrors q t a c p o now v m room l =
      let n = (q.counter + 1) % word in
      let small : n ≡ q.counter + 1 = omega (arith, room) in
      let unused : lookup (job_id n) q.jobs ≡ none =
        ap (λ i. lookup (job_id i) q.jobs) small ∙ next_id-unused codec q v room in
      let counted : Mirrors codec w (record q { counter = n }) = record {
        store = m.store;
        is_store = m.is_store;
        agrees = m.agrees;
      } in
      store_job-Mirrors codec w (record q { counter = n }) (job_id n) _ counted refl
        (λ i f. absurd (ground (arith, unused, f)))
        (l (job_id n) _ (lookup-store_self (record q { counter = n }) (job_id n) _))
