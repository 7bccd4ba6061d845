-- ===== src/Jobs/Ids.antt =====
-- pkg/jobs/jobs.go: job identifiers, their numbers, and the counter that they are drawn from.
use spectral_cloud.Prelude.{
  ℕ, ◌+◌, ◌%◌, ◌<◌, ◌≤◌, String, ◌≡◌, refl, Option, none, some, List, [], ◌∷◌, arith, eq_iff,
  if◌then◌else◌, Option-cases, Bool-cases, inl, inr, ap, ◌∙◌, ltb,
}
use spectral_cloud.Prelude.Int.{word}
use spectral_cloud.Prelude.Clock.{Time}
use spectral_cloud.Prelude.Dict.{lookup, insert, remove, lookup-insert, lookup-remove}
use spectral_cloud.Prelude.Distinct.{Distinct, insert-Distinct, remove-Distinct}
use spectral_cloud.Prelude.Decimal.{show, scan-show, strip_prefix-append}
use spectral_cloud.Persist.{Host, Codec}
use spectral_cloud.Jobs.Record.{
  Job, SubmitOptions, job_key_prefix, parse_job_num, job_id, is_terminal, make_job,
}
use spectral_cloud.Jobs.{
  Queue, store_job, decode_all, restore, load_from_store, submit_with_opts, update, cancel,
  take_job,
}
use spectral_cloud.Jobs.Effects.{lookup-store_job, jobs-store_job, counter-store_job}

pub parse_job_num-job_id : (n : ℕ) → n < word → parse_job_num (job_id n) ≡ n
unfolding parse_job_num job_id
parse_job_num-job_id n h = ground (arith, strip_prefix-append "job-" (show n), scan-show n h)

-- Every job stands under its own identifier, whose number the counter has reached.
pub record IsNumbered {h : Host} (q : Queue h) : Type 0 where
  pub distinct : Distinct q.jobs
  pub each :
      (k : String) (j : Job h.Payload)
      → lookup k q.jobs ≡ some j
      → (j.id ≡ k) × (parse_job_num k ≤ q.counter)

module _ {h : Host} (codec : Codec h (Job h.Payload)) where
  store_job-IsNumbered :
      (q : Queue h) (id : String) (j : Job h.Payload)
      → IsNumbered q
      → j.id ≡ id
      → parse_job_num id ≤ q.counter
      → IsNumbered (store_job codec q id j)
  store_job-IsNumbered q id j v own low = record {
    distinct = rw (jobs-store_job codec q id j) (insert-Distinct id j q.jobs v.distinct);
    each = λ k x e.
        rw (counter-store_job codec q id j)
          (ground (arith, e, lookup-store_job codec q id k j, eq_iff k id, v.each k x));
  }

  -- A change of the job under a key keeps its identifier.
  pub rewrite-IsNumbered :
      (q : Queue h) (id : String) (j x : Job h.Payload)
      → IsNumbered q
      → lookup id q.jobs ≡ some j
      → x.id ≡ j.id
      → IsNumbered (store_job codec q id x)
  rewrite-IsNumbered q id j x v e same =
      let (own, low) = v.each id j e in store_job-IsNumbered q id x v (same ∙ own) low

  pub remove-IsNumbered :
      (q r : Queue h) (id : String)
      → IsNumbered q
      → r.jobs ≡ remove id q.jobs
      → r.counter ≡ q.counter
      → IsNumbered r
  remove-IsNumbered q r id v e c = record {
    distinct = rw e (remove-Distinct id q.jobs v.distinct);
    each = λ k x l.
        rw c (ground (arith, eq_iff k id, ap (lookup k) e, lookup-remove id k q.jobs, v.each k x));
  }

  raised_new : (c n : ℕ) → n ≤ (if ltb c n then n else c)
  raised_new c n = ground arith

  raised_old : (c n m : ℕ) → m ≤ c → m ≤ (if ltb c n then n else c)
  raised_old c n m h = ground arith

  put-IsNumbered :
      (q : Queue h) (j : Job h.Payload) (c : ℕ)
      → IsNumbered q
      → parse_job_num j.id ≤ c
      → q.counter ≤ c
      → IsNumbered (record q { jobs = insert j.id j q.jobs; counter = c })
  put-IsNumbered q j c v low up = record {
    distinct = insert-Distinct j.id j q.jobs v.distinct;
    each = λ k x e. ground (arith, e, lookup-insert j.id k j q.jobs, eq_iff k j.id, v.each k x);
  }

  restore-IsNumbered :
      (js : List (Job h.Payload)) (q : Queue h) → IsNumbered q → IsNumbered (restore codec q js)
  unfolding restore
  restore-IsNumbered [] q v = v
  restore-IsNumbered (j ∷ js) q v = restore-IsNumbered js _ (
      put-IsNumbered q j _ v (raised_new q.counter (parse_job_num j.id))
        (raised_old q.counter (parse_job_num j.id) q.counter (omega arith)))

  pub load-IsNumbered :
      (q : Queue h) (tenant : String) → IsNumbered q → IsNumbered (load_from_store codec q tenant).0
  unfolding load_from_store
  load-IsNumbered q tenant v = elim (Option-cases q.db) [
    | inl e ↦ rw (e, load_from_store) v
    | inr (d, e) ↦ elim (Option-cases (h.scan tenant job_key_prefix d)) [
      | inl f ↦ rw (e, load_from_store) (rw (f, load_from_store) v)
      | inr (vs, f) ↦
          rw (e, load_from_store)
            (rw (f, load_from_store) (restore-IsNumbered (decode_all codec vs) q v))
    ]
  ]

  pub submit-IsNumbered :
      (q : Queue h) (t a c : String) (p : h.Payload) (o : SubmitOptions) (now : Time)
      → IsNumbered q
      → q.counter + 1 < word
      → IsNumbered (submit_with_opts codec q t a c p o now).0
  unfolding submit_with_opts make_job
  submit-IsNumbered q t a c p o now v room =
      let n = (q.counter + 1) % word in
      store_job-IsNumbered (record q { counter = n }) (job_id n) _
        (record {
          distinct = v.distinct;
          each = λ k x e. let (own, low) = v.each k x e in (own, omega arith);
        })
        refl (rw (parse_job_num-job_id n (omega arith)) (omega arith))

  pub take-IsNumbered :
      (q : Queue h) (o : Option (Job h.Payload)) (agent_id : String) (now : Time)
      → IsNumbered q
      → ((j : Job h.Payload) → o ≡ some j → lookup j.id q.jobs ≡ some j)
      → IsNumbered (take_job codec q o agent_id now).0
  unfolding take_job
  take-IsNumbered q none agent_id now v f = v
  take-IsNumbered q (some j) agent_id now v f = rewrite-IsNumbered q j.id j _ v (f j refl) refl

  pub update-IsNumbered :
      (q : Queue h) (id s r e : String) (now : Time)
      → IsNumbered q
      → IsNumbered (update codec q id s r e now).0
  unfolding update
  update-IsNumbered q id s r m now v = elim (Option-cases (lookup id q.jobs)) [
    | inl e ↦ rw (e, update) v
    | inr (j, e) ↦ rw (e, update) (rewrite-IsNumbered q id j _ v e refl)
  ]

  pub cancel-IsNumbered :
      (q : Queue h) (id : String) (now : Time) → IsNumbered q → IsNumbered (cancel codec q id now).0
  unfolding cancel
  cancel-IsNumbered q id now v = elim (Option-cases (lookup id q.jobs)) [
    | inl e ↦ rw (e, cancel) v
    | inr (j, e) ↦ elim (Bool-cases (is_terminal j.status)) [
      | inl t ↦ rw (e, cancel) (rw (t, cancel) v)
      | inr t ↦ rw (e, cancel) (rw (t, cancel) (rewrite-IsNumbered q id j _ v e refl))
    ]
  ]
