-- ===== src/Jobs/History.antt =====
-- pkg/jobs/jobs.go: histories of calls on the queue, and a submission after them.
use spectral_cloud.Prelude.{
  ℕ, ◌+◌, ◌%◌, ◌<◌, String, ◌≡◌, refl, none, some, List, [], ◌∷◌, arith, if◌then◌else◌,
  Option-cases, Bool-cases, inl, inr, ap, ◌∙◌, ◌==◌,
}
use spectral_cloud.Prelude.Int.{word}
use spectral_cloud.Prelude.Clock.{Time, Duration}
use spectral_cloud.Prelude.Dict.{lookup, remove, keys, lookup-nil}
use spectral_cloud.Persist.{Host, Codec}
use spectral_cloud.Jobs.Record.{
  Job, SubmitOptions, job_id, claim_matches, tenant_claim_matches, is_stale, is_old, make_job,
}
use spectral_cloud.Jobs.{
  Queue, new_queue_with_store, load_from_store, submit_with_opts, get, update, cancel, claim,
  claim_for_tenant, expire_one, expire_stale, prune_one, prune,
}
use spectral_cloud.Prelude.Sweep.{sweep-keeps}
use spectral_cloud.Jobs.Effects.{lookup-store_job, jobs-unpersist, counter-unpersist}
use spectral_cloud.Jobs.Ids.{
  IsNumbered, submit-IsNumbered, take-IsNumbered, update-IsNumbered, cancel-IsNumbered,
  load-IsNumbered, remove-IsNumbered, rewrite-IsNumbered, parse_job_num-job_id,
}
use spectral_cloud.Jobs.Claims.{best_from-lookup}

-- The calls that change the queue; each is run at an instant.
pub data Call (P : Type 0) : Type 0 where
  submits : String → String → String → P → SubmitOptions → Call P
  updates : String → String → String → String → Call P
  cancels : String → Call P
  claims : String → String → Call P
  claims_for : String → String → String → Call P
  expires : Call P
  prunes : Duration → Call P
  loads : String → Call P

module _ {h : Host} (codec : Codec h (Job h.Payload)) where
  unfoldable pub step : Queue h → Time × Call h.Payload → Queue h
  step q (now, submits t a c p o) = (submit_with_opts codec q t a c p o now).0
  step q (now, updates id s r e) = (update codec q id s r e now).0
  step q (now, cancels id) = (cancel codec q id now).0
  step q (now, claims a c) = (claim codec q a c now).0
  step q (now, claims_for t a c) = (claim_for_tenant codec q t a c now).0
  step q (now, expires) = (expire_stale codec q now).0
  step q (now, prunes age) = (prune codec q age now).0
  step q (now, loads t) = (load_from_store codec q t).0

  unfoldable pub run : List (Time × Call h.Payload) → Queue h → Queue h
  unfolding step
  run [] q = q
  run (c ∷ cs) q = run cs (step q c)

  -- Before each call the counter is below the largest `uint64`.
  abbrev pub Room : List (Time × Call h.Payload) → Queue h → Type 0
  Room [] q = q.counter + 1 < word
  Room (c ∷ cs) q = (q.counter + 1 < word) × Room cs (step q c)

  pub expire_one-IsNumbered :
      (now : Time) (s : Queue h × ℕ) (id : String)
      → IsNumbered s.0
      → IsNumbered (expire_one codec now s id).0
  unfolding expire_one
  expire_one-IsNumbered now (q, n) id v = elim (Option-cases (lookup id q.jobs)) [
    | inl e ↦ rw (e, expire_one) v
    | inr (j, e) ↦ elim (Bool-cases (is_stale now j)) [
      | inl t ↦ rw (e, expire_one) (rw (t, expire_one) (rewrite-IsNumbered codec q id j _ v e refl))
      | inr t ↦ rw (e, expire_one) (rw (t, expire_one) v)
    ]
  ]

  pub prune_one-IsNumbered :
      (age : Duration) (now : Time) (s : Queue h × ℕ) (id : String)
      → IsNumbered s.0
      → IsNumbered (prune_one codec age now s id).0
  unfolding prune_one
  prune_one-IsNumbered age now (q, n) id v = elim (Option-cases (lookup id q.jobs)) [
    | inl e ↦ rw (e, prune_one) v
    | inr (j, e) ↦ elim (Bool-cases (is_old age now j)) [
      | inl t ↦
          rw (e, prune_one)
            (rw (t, prune_one)
              (remove-IsNumbered codec q _ id v (ap (remove id) (jobs-unpersist codec q j))
                (counter-unpersist codec q j)))
      | inr t ↦ rw (e, prune_one) (rw (t, prune_one) v)
    ]
  ]

  pub step-IsNumbered :
      (q : Queue h) (c : Time × Call h.Payload)
      → IsNumbered q
      → q.counter + 1 < word
      → IsNumbered (step q c)
  unfolding step claim claim_for_tenant expire_stale prune
  step-IsNumbered q (now, submits t a c p o) v room = submit-IsNumbered codec q t a c p o now v room
  step-IsNumbered q (now, updates id s r e) v room = update-IsNumbered codec q id s r e now v
  step-IsNumbered q (now, cancels id) v room = cancel-IsNumbered codec q id now v
  step-IsNumbered q (now, claims a c) v room =
      take-IsNumbered codec q _ a now v
        (λ j e. (best_from-lookup (claim_matches a c) a now q j v e).0)
  step-IsNumbered q (now, claims_for t a c) v room =
      take-IsNumbered codec q _ a now v
        (λ j e. (best_from-lookup (tenant_claim_matches t a c) a now q j v e).0)
  step-IsNumbered q (now, expires) v room =
      sweep-keeps (expire_one codec now) (λ s. IsNumbered s.0) (expire_one-IsNumbered now)
        (keys q.jobs) (q, 0) v
  step-IsNumbered q (now, prunes age) v room =
      sweep-keeps (prune_one codec age now) (λ s. IsNumbered s.0) (prune_one-IsNumbered age now)
        (keys q.jobs) (q, 0) v
  step-IsNumbered q (now, loads t) v room = load-IsNumbered codec q t v

  pub run-IsNumbered :
      (cs : List (Time × Call h.Payload)) (q : Queue h)
      → IsNumbered q
      → Room cs q
      → IsNumbered (run cs q)
  unfolding run
  run-IsNumbered [] q v room = v
  run-IsNumbered (c ∷ cs) q v room =
      run-IsNumbered cs (step q c) (step-IsNumbered q c v room.0) room.1

  Room-last :
      (cs : List (Time × Call h.Payload)) (q : Queue h) → Room cs q → (run cs q).counter + 1 < word
  unfolding run
  Room-last [] q room = room
  Room-last (c ∷ cs) q room = Room-last cs (step q c) room.1

  pub start-IsNumbered : (d : h.Db) → IsNumbered {h = h} (new_queue_with_store codec d)
  unfolding new_queue_with_store
  start-IsNumbered d = record {
    distinct = tt;
    each = λ k j e. absurd (ground (arith, e, lookup-nil {V = Job h.Payload} k));
  }

  -- The counter of a numbered queue is ahead of every identifier in use.
  pub next_id-unused :
      (q : Queue h)
      → IsNumbered q
      → q.counter + 1 < word
      → lookup (job_id (q.counter + 1)) q.jobs ≡ none
  next_id-unused q v room = elim (Option-cases (lookup (job_id (q.counter + 1)) q.jobs)) [
    | inl e ↦ e
    | inr (j, e) ↦
        let (own, low) = v.each (job_id (q.counter + 1)) j e in
        absurd (omega (arith, low, parse_job_num-job_id (q.counter + 1) room))
  ]

  -- After any history of calls on a queue over a store, loads included, in which the counter stays
  -- below the largest `uint64`, a submission takes an identifier that no job has. The new job is
  -- stored under it, pending, and every other job stays.
  pub submit-run :
      (d : h.Db) (cs : List (Time × Call h.Payload)) (t a c : String) (p : h.Payload)
      (o : SubmitOptions) (now : Time)
      → Room cs (new_queue_with_store codec d)
      → let q = run cs (new_queue_with_store codec d) in
        let (r, j) = submit_with_opts codec q t a c p o now in
        (get codec q j.id ≡ none)
        × (j.status ≡ "pending")
        × ((k : String) → get codec r k ≡ (if k == j.id then some j else get codec q k))
  unfolding submit_with_opts get make_job
  submit-run d cs t a c p o now room =
      let q = run cs (new_queue_with_store codec d) in
      let v = run-IsNumbered cs _ (start-IsNumbered d) room in
      let low = Room-last cs _ room in
      let small : (q.counter + 1) % word ≡ q.counter + 1 = omega arith in
      (
        ap (λ n. lookup (job_id n) q.jobs) small ∙ next_id-unused q v low,
        refl,
        λ k.
            lookup-store_job codec (record q { counter = (q.counter + 1) % word })
              (job_id ((q.counter + 1) % word)) k _,
      )
