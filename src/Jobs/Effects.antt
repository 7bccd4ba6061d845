-- ===== src/Jobs/Effects.antt =====
-- pkg/jobs/jobs.go: what each step on the queue does to the job under each key.
use spectral_cloud.Prelude.{
  ℕ, String, ◌≡◌, refl, Option, none, some, arith, eq_iff, if◌then◌else◌, Option-cases, inl, inr,
  ap, ◌∙◌, ◌==◌, ◌<◌, Bool, false, ◌&&◌, ◌||◌, ltb,
}
use spectral_cloud.Prelude.Int.{pos, negsuc, ◌+ℤ◌, neg_part, pos_part, ltb_ℤ, ◌-ℤ◌, half_word, wrap}
use spectral_cloud.Prelude.Clock.{Time, Duration}
use spectral_cloud.Prelude.Dict.{lookup, insert, remove, lookup-insert, lookup-remove}
use spectral_cloud.Prelude.Sweep.{sweep-keys}
use spectral_cloud.Persist.{Host, Codec}
use spectral_cloud.Jobs.Record.{Job, is_terminal, is_stale, is_old}
use spectral_cloud.Jobs.{
  Queue, persist, unpersist, store_job, expire_one, expire_stale, prune_one, prune,
}

-- Whether an instant is there and has passed.
abbrev pub over : Option Time → Time → Bool
over none now = false
over (some t) now = ltb t now

pub is_stale_eq :
    {P : Type 0} (now : Time) (j : Job P)
    → is_stale now j ≡ (j.status == "pending" && over j.expires_at now)
unfolding is_stale
is_stale_eq now j = elim (Option-cases j.expires_at) [
  | inl e ↦ ground (arith, e)
  | inr (t, e) ↦ ground (arith, e)
]

-- A duration whose negation is an `int64` too.
abbrev pub Symmetric : Duration → Type 0
Symmetric age = (pos_part age < half_word) × (neg_part age < half_word)

negated_before :
    (age : Duration) (now t : Time)
    → Symmetric age
    → ltb_ℤ (pos t) (pos now +ℤ wrap (pos 0 -ℤ age)) ≡ ltb_ℤ (pos t) (pos now -ℤ age)
unfolding wrap
negated_before (pos n) now t h = ground (arith, h.0)
negated_before (negsuc n) now t h = ground (arith, h.1)

is_old_eq :
    {P : Type 0} (age : Duration) (now : Time) (j : Job P)
    → Symmetric age
    → is_old age now j ≡ (
        (j.status == "done" || j.status == "failed" || j.status == "cancelled")
        && ltb_ℤ (pos j.updated_at) (pos now -ℤ age))
unfolding is_old is_terminal
is_old_eq age now j small =
    ap (λ b. (j.status == "done" || j.status == "failed" || j.status == "cancelled") && b)
      (negated_before age now j.updated_at small)

module _ {h : Host} (codec : Codec h (Job h.Payload)) where
  pub jobs-persist : (q : Queue h) (j : Job h.Payload) → (persist codec q j).jobs ≡ q.jobs
  unfolding persist
  jobs-persist q j = ground arith

  pub counter-persist : (q : Queue h) (j : Job h.Payload) → (persist codec q j).counter ≡ q.counter
  unfolding persist
  counter-persist q j = ground arith

  pub jobs-store_job :
      (q : Queue h) (id : String) (j : Job h.Payload)
      → (store_job codec q id j).jobs ≡ insert id j q.jobs
  unfolding store_job
  jobs-store_job q id j = jobs-persist (record q { jobs = insert id j q.jobs }) j

  pub lookup-store_job :
      (q : Queue h) (id k : String) (j : Job h.Payload)
      → lookup k (store_job codec q id j).jobs ≡ (if k == id then some j else lookup k q.jobs)
  unfolding store_job
  lookup-store_job q id k j =
      ap (lookup k) (jobs-persist (record q { jobs = insert id j q.jobs }) j)
      ∙ lookup-insert id k j q.jobs

  pub counter-store_job :
      (q : Queue h) (id : String) (j : Job h.Payload) → (store_job codec q id j).counter ≡ q.counter
  unfolding store_job
  counter-store_job q id j = counter-persist (record q { jobs = insert id j q.jobs }) j

  pub jobs-unpersist : (q : Queue h) (j : Job h.Payload) → (unpersist codec q j).jobs ≡ q.jobs
  unfolding unpersist
  jobs-unpersist q j = ground arith

  pub counter-unpersist :
      (q : Queue h) (j : Job h.Payload) → (unpersist codec q j).counter ≡ q.counter
  unfolding unpersist
  counter-unpersist q j = ground arith

  -- What a visit of `ExpireStale` makes of an entry, and a visit of `Prune`.
  abbrev pub expired : Time → Option (Job h.Payload) → Option (Job h.Payload)
  expired now none = none
  expired now (some j) =
      if j.status == "pending" && over j.expires_at now
      then some (record j { status = "failed"; error = "ttl expired"; updated_at = now })
      else some j

  abbrev pub pruned : Duration → Time → Option (Job h.Payload) → Option (Job h.Payload)
  pruned age now none = none
  pruned age now (some j) =
      if (j.status == "done" || j.status == "failed" || j.status == "cancelled")
        && ltb_ℤ (pos j.updated_at) (pos now -ℤ age)
      then none
      else some j

  pub expired_idem :
      (now : Time) (o : Option (Job h.Payload)) → expired now (expired now o) ≡ expired now o
  expired_idem now none = refl
  expired_idem now (some j) = ground arith

  pruned_idem :
      (age : Duration) (now : Time) (o : Option (Job h.Payload))
      → pruned age now (pruned age now o) ≡ pruned age now o
  pruned_idem age now none = refl
  pruned_idem age now (some j) = ground arith

  pub lookup-expire_one :
      (now : Time) (q : Queue h) (n : ℕ) (id k : String)
      → lookup k (expire_one codec now (q, n) id).0.jobs
        ≡ (if k == id then expired now (lookup k q.jobs) else lookup k q.jobs)
  unfolding expire_one
  lookup-expire_one now q n id k = elim (Option-cases (lookup id q.jobs)) [
    | inl e ↦ ground (arith, e, eq_iff k id)
    | inr (j, e) ↦ ground (
      arith,
      e,
      eq_iff k id,
      is_stale_eq now j,
      lookup-store_job q id k
          (record j { status = "failed"; error = "ttl expired"; updated_at = now }),
    )
  ]

  lookup-prune_one :
      (age : Duration) (now : Time) (q : Queue h) (n : ℕ) (id k : String)
      → Symmetric age
      → lookup k (prune_one codec age now (q, n) id).0.jobs
        ≡ (if k == id then pruned age now (lookup k q.jobs) else lookup k q.jobs)
  unfolding prune_one
  lookup-prune_one age now q n id k small = elim (Option-cases (lookup id q.jobs)) [
    | inl e ↦ ground (arith, e, eq_iff k id)
    | inr (j, e) ↦ ground (
      arith,
      e,
      eq_iff k id,
      is_old_eq age now j small,
      ap (λ m. lookup k (remove id m)) (jobs-unpersist q j),
      lookup-remove id k q.jobs,
    )
  ]

  pub lookup-expire_stale :
      (q : Queue h) (now : Time) (k : String)
      → lookup k (expire_stale codec q now).0.jobs ≡ expired now (lookup k q.jobs)
  unfolding expire_stale
  lookup-expire_stale q now k =
      sweep-keys (expire_one codec now) (λ s k. lookup k s.0.jobs) (expired now) (expired_idem now)
        (λ s j k. lookup-expire_one now s.0 s.1 j k) q.jobs (q, 0) k refl refl

  -- `ExpireStale` makes each job whose status is "pending" and whose expiry is before `now` a failed
  -- one, with the error "ttl expired" and changed at `now`. `Prune` removes each job whose status is
  -- "done", "failed" or "cancelled" and which was last changed before `now - age`, for any age but
  -- the least `int64`. Both leave the job under every other key as it was.
  pub lookup-expire_stale-prune :
      (q : Queue h) (now : Time) (age : Duration) (k : String)
      → Symmetric age
      → (lookup k (expire_stale codec q now).0.jobs ≡ expired now (lookup k q.jobs))
        × (lookup k (prune codec q age now).0.jobs ≡ pruned age now (lookup k q.jobs))
  unfolding prune
  lookup-expire_stale-prune q now age k small = (
    lookup-expire_stale q now k,
    sweep-keys (prune_one codec age now) (λ s k. lookup k s.0.jobs) (pruned age now)
        (pruned_idem age now) (λ s j k. lookup-prune_one age now s.0 s.1 j k small) q.jobs (q, 0) k
        refl refl,
  )
