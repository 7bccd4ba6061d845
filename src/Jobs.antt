-- ===== src/Jobs.antt =====
-- pkg/jobs/jobs.go: the job queue. A `*Job` of the map is a value here, stored back after each
-- change; the time of a call is an argument. A loop over the map is a loop over its keys, which
-- reads the entry that a key has when the loop comes to it.
pub mod Record
pub mod Effects
pub mod Ids
pub mod Mirror
pub mod Mirrored
pub mod Restore
pub mod Recovery
mod StoredExamples
pub mod Asked
pub mod Claims
pub mod History
pub mod Exclusive
pub mod Examples
use Prim.Native.String.{◌++◌ as str_append}
use spectral_cloud.Prelude.{
  ℕ, suc, ◌+◌, ◌%◌, String, Bool, true, false, not, Option, none, some, List, [], ◌∷◌, ◌==◌, ◌&&◌,
  ◌||◌, ltb, if◌then◌else◌, length, select,
}
use spectral_cloud.Prelude.Int.{ℤ, pos, word, ltb_ℤ, eqb_ℤ, ◌-ℤ◌}
use spectral_cloud.Prelude.Clock.{Time, Duration, add_time, seconds, after, before, passed}
use spectral_cloud.Prelude.Decimal.{show, scan, strip_prefix}
use spectral_cloud.Prelude.Dict.{Dict, lookup, insert, remove, keys, values}
use mathlib.Core.List.{reverse}
use spectral_cloud.Prelude.Sweep.{sweep}
use spectral_cloud.Persist.{Host, Codec}
use Record.{
  Job, job_key_prefix, SubmitOptions, parse_job_num, job_id, is_terminal, claim_matches,
  tenant_claim_matches, is_better, challenge, best_from, sift, sort_from, in_tenant, bump,
  count_statuses, is_stale, is_old, make_job,
}

-- `db` is `none` for a queue without a store.
pub record Queue (h : Host) : Type 0 where
  pub jobs : Dict (Job h.Payload)
  pub counter : ℕ
  pub db : Option h.Db

module _ {h : Host} (codec : Codec h (Job h.Payload)) where
  unfoldable pub new_queue : Queue h
  new_queue = record { jobs = []; counter = 0; db = none }

  unfoldable pub new_queue_with_store : h.Db → Queue h
  new_queue_with_store d = record { jobs = []; counter = 0; db = some d }

  unfoldable pub persist : Queue h → Job h.Payload → Queue h
  persist q j = elim q.db [
    | none ↦ q
    | some d ↦ elim (codec.encode j) [
      | none ↦ q
      | some v ↦ record q { db = some (h.put j.tenant (str_append job_key_prefix j.id) v d) }
    ]
  ]

  unfoldable pub unpersist : Queue h → Job h.Payload → Queue h
  unpersist q j = elim q.db [
    | none ↦ q
    | some d ↦ record q { db = some (h.delete j.tenant (str_append job_key_prefix j.id) d) }
  ]

  -- Stores a job under a key of the map and persists it.
  unfoldable pub store_job : Queue h → String → Job h.Payload → Queue h
  unfolding persist
  store_job q id j = persist (record q { jobs = insert id j q.jobs }) j

  -- The jobs that decode; the others are skipped with a warning.
  unfoldable pub decode_all : List h.Data → List (Job h.Payload)
  decode_all [] = []
  decode_all (v ∷ vs) =
      let rest = decode_all vs in elim (codec.decode v) [ none ↦ rest | some j ↦ j ∷ rest ]

  unfoldable pub restore : Queue h → List (Job h.Payload) → Queue h
  unfolding parse_job_num
  restore q [] = q
  restore q (j ∷ js) =
      let n = parse_job_num j.id in
      restore
        (record q {
          jobs = insert j.id j q.jobs;
          counter = if ltb q.counter n then n else q.counter;
        })
        js

  -- The number of jobs loaded; `none` is the error of the scan.
  unfoldable pub load_from_store : Queue h → String → Queue h × Option ℕ
  unfolding restore decode_all
  load_from_store q tenant = elim q.db [
    | none ↦ (q, some 0)
    | some d ↦ elim (h.scan tenant job_key_prefix d) [
      | none ↦ (q, none)
      | some vs ↦ (restore q (decode_all vs), some (length (decode_all vs)))
    ]
  ]

  unfoldable pub submit_with_opts :
      Queue h
      → String
      → String
      → String
      → h.Payload
      → SubmitOptions
      → Time
      → Queue h × Job h.Payload
  unfolding store_job job_id make_job
  submit_with_opts q tenant agent_id capability payload opts now =
      let n = (q.counter + 1) % word in
      let j = make_job (job_id n) tenant agent_id capability payload opts now in
      (store_job (record q { counter = n }) (job_id n) j, j)

  unfoldable pub submit :
      Queue h → String → String → String → h.Payload → Time → Queue h × Job h.Payload
  unfolding submit_with_opts
  submit q tenant agent_id capability payload now =
      submit_with_opts q tenant agent_id capability payload
        (record { priority = pos 0; ttl_seconds = pos 0 }) now

  unfoldable pub get : Queue h → String → Option (Job h.Payload)
  get q id = lookup id q.jobs

  unfoldable pub update : Queue h → String → String → String → String → Time → Queue h × Bool
  unfolding store_job
  update q id status result message now = elim (lookup id q.jobs) [
    | none ↦ (q, false)
    | some j ↦ (
      store_job q id
          (record j { status = status; result = result; error = message; updated_at = now }),
      true,
    )
  ]

  unfoldable pub list : Queue h → String → List (Job h.Payload)
  unfolding sort_from
  list q tenant = sort_from [] (select (in_tenant tenant) (values q.jobs))

  unfoldable pub count : Queue h → ℕ
  count q = length q.jobs

  unfoldable pub cancel : Queue h → String → Time → Queue h × Bool
  unfolding store_job is_terminal
  cancel q id now = elim (lookup id q.jobs) [
    | none ↦ (q, false)
    | some j ↦
        if is_terminal j.status
        then (q, false)
        else (store_job q id (record j { status = "cancelled"; updated_at = now }), true)
  ]

  -- What both claims do with the best candidate.
  unfoldable pub take_job :
      Queue h → Option (Job h.Payload) → String → Time → Queue h × Option (Job h.Payload)
  unfolding store_job
  take_job q none agent_id now = (q, none)
  take_job q (some best) agent_id now =
      let j = record best {
        agent_id = if agent_id == "" then best.agent_id else agent_id;
        status = "running";
        updated_at = now;
      } in
      (store_job q best.id j, some j)

  unfoldable pub claim : Queue h → String → String → Time → Queue h × Option (Job h.Payload)
  unfolding take_job best_from claim_matches
  claim q agent_id capability now =
      take_job q (best_from (claim_matches agent_id capability) none (values q.jobs)) agent_id now

  unfoldable pub claim_for_tenant :
      Queue h → String → String → String → Time → Queue h × Option (Job h.Payload)
  unfolding take_job best_from tenant_claim_matches
  claim_for_tenant q tenant agent_id capability now =
      take_job q (best_from (tenant_claim_matches tenant agent_id capability) none (values q.jobs))
        agent_id now

  -- One round of the loop of `ExpireStale`.
  unfoldable pub expire_one : Time → Queue h × ℕ → String → Queue h × ℕ
  unfolding store_job is_stale
  expire_one now (q, n) id = elim (lookup id q.jobs) [
    | none ↦ (q, n)
    | some j ↦
        if is_stale now j
        then (
          store_job q id (record j { status = "failed"; error = "ttl expired"; updated_at = now }),
          n + 1,
        )
        else (q, n)
  ]

  unfoldable pub expire_stale : Queue h → Time → Queue h × ℕ
  unfolding sweep expire_one
  expire_stale q now = sweep (expire_one now) (q, 0) (keys q.jobs)

  unfoldable pub list_by_status : Queue h → String → String → List (Job h.Payload)
  unfolding sort_from
  list_by_status q tenant status =
      sort_from [] (select (λ j. in_tenant tenant j && j.status == status) (values q.jobs))

  unfoldable pub count_by_status : Queue h → String → Dict ℕ
  unfolding count_statuses
  count_by_status q tenant = count_statuses (select (in_tenant tenant) (values q.jobs)) []

  -- One round of the loop of `Prune`.
  unfoldable pub prune_one : Duration → Time → Queue h × ℕ → String → Queue h × ℕ
  unfolding unpersist is_old
  prune_one max_age now (q, n) id = elim (lookup id q.jobs) [
    | none ↦ (q, n)
    | some j ↦
        if is_old max_age now j
        then (let u = unpersist q j in record u { jobs = remove id u.jobs }, n + 1)
        else (q, n)
  ]

  unfoldable pub prune : Queue h → Duration → Time → Queue h × ℕ
  unfolding sweep prune_one
  prune q max_age now = sweep (prune_one max_age now) (q, 0) (keys q.jobs)
