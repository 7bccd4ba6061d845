-- ===== src/Jobs/Examples.antt =====
-- Tests of the job queue, and its theorems at concrete inputs.
use spectral_cloud.Prelude.{
  String, ◌≡◌, ◌≢◌, Option, refl, none, some, List, [], ◌∷◌, arith, if◌then◌else◌, ◌==◌, ◌&&◌, not,
  select, map,
}
use spectral_cloud.Prelude.Int.{ℤ, pos}
use spectral_cloud.Prelude.Clock.{Time}
use spectral_cloud.Prelude.Dict.{lookup, insert, values}
use spectral_cloud.Prelude.Decimal.{show}
use spectral_cloud.Persist.{Host, Codec}
use spectral_cloud.Jobs.Record.{Job, SubmitOptions, is_better}
use spectral_cloud.Jobs.{
  Queue, new_queue_with_store, persist, store_job, submit_with_opts, get, claim, claim_for_tenant,
  expire_stale, prune,
}
use spectral_cloud.Jobs.Effects.{expired, pruned, lookup-expire_stale-prune}
use spectral_cloud.Jobs.Ids.{IsNumbered}
use spectral_cloud.Jobs.Asked.{asked_for, asked_in}
use spectral_cloud.Jobs.Claims.{Served, claims-Served}
use spectral_cloud.Jobs.Exclusive.{claim_twice}
use spectral_cloud.Jobs.History.{
  Call, submits, step, run, Room, run-IsNumbered, start-IsNumbered, submit-run,
}

-- A store that keeps its writes in a list, newest first, and JSON that is the value itself.
abbrev memory : Host
memory = record {
  Payload = String;
  Data = Job String;
  Db = List (String × String × Job String);
  put = λ t k v d. (t, k, v) ∷ d;
  delete = λ t k d. select (λ e. not (e.0 == t && e.1 == k)) d;
  scan = λ t p d. some (map (λ e. e.2) (select (λ e. e.0 == t) d));
}

abbrev plain : Codec memory (Job String)
plain = record { encode = λ j. some j; decode = λ j. some j }

abbrev high : SubmitOptions
high = record { priority = pos 5; ttl_seconds = pos 10 }

abbrev low : SubmitOptions
low = record { priority = pos 0; ttl_seconds = pos 0 }

abbrev history : List (Time × Call String)
history = (100, submits "t" "" "ocr" "a" low) ∷ (200, submits "t" "" "ocr" "b" high) ∷ []

abbrev start : Queue memory
start = new_queue_with_store plain []

history-Room : Room plain history start
unfolding step submit_with_opts store_job persist new_queue_with_store
history-Room = (omega arith, (omega arith, omega arith))

abbrev q2 : Queue memory
q2 = run plain history start

q2-IsNumbered : IsNumbered q2
q2-IsNumbered = run-IsNumbered plain history start (start-IsNumbered plain []) history-Room

submit-run_example :
    let (r, j) = submit_with_opts plain q2 "t" "" "ocr" "c" low 300 in
    (get plain q2 j.id ≡ none)
    × (j.status ≡ "pending")
    × ((k : String) → get plain r k ≡ (if k == j.id then some j else get plain q2 k))
submit-run_example = submit-run plain [] history "t" "" "ocr" "c" low 300 history-Room

claims-Served_example :
    (let (r, reply) = claim plain q2 "" "ocr" 300 in Served (asked_for "" "ocr") "" 300 q2 r reply)
    × (let (r, reply) = claim_for_tenant plain q2 "t" "" "ocr" 300 in
        Served (asked_in "t" "" "ocr") "" 300 q2 r reply)
claims-Served_example = claims-Served plain q2 "t" "" "ocr" 300 q2-IsNumbered

-- The job of the higher priority is taken first, and the other one next.
claims_by_priority :
    let (r, first) = claim plain q2 "" "ocr" 300 in
    let (s, second) = claim plain r "" "ocr" 301 in
    (map (λ j. j.id) (values (select (λ e. e.1.status == "running") r.jobs)) ≡ "job-2" ∷ [])
    × (map (λ j. j.id) (values (select (λ e. e.1.status == "running") s.jobs))
        ≡ "job-1" ∷ "job-2" ∷ [])
unfolding claim run submit_with_opts new_queue_with_store insert show is_better
claims_by_priority = (refl, refl)

abbrev taken : String → String → ℤ → ℤ → Time → Time → Option Time → Job String
taken id payload priority ttl created updated expires = record {
  id = id;
  tenant = "t";
  agent_id = "a1";
  capability = "ocr";
  payload = payload;
  priority = priority;
  ttl_seconds = ttl;
  status = "running";
  result = "";
  error = "";
  created_at = created;
  updated_at = updated;
  expires_at = expires;
}

abbrev job2 : Job String
job2 = taken "job-2" "b" (pos 5) (pos 10) 200 300 (some 10_000_000_200)

abbrev job1 : Job String
job1 = taken "job-1" "a" (pos 0) (pos 0) 100 301 none

first_is_job2 : (claim_for_tenant plain q2 "t" "a1" "ocr" 300).1 ≡ some job2
unfolding claim_for_tenant run submit_with_opts new_queue_with_store insert show is_better
first_is_job2 = refl

second_is_job1 :
    (claim_for_tenant plain (claim_for_tenant plain q2 "t" "a1" "ocr" 300).0 "t" "a1" "" 301).1
    ≡ some job1
unfolding claim_for_tenant run submit_with_opts new_queue_with_store insert show is_better
second_is_job1 = refl

claim_twice_example : job2.id ≢ job1.id
claim_twice_example =
    claim_twice plain q2 "t" "a1" "ocr" "t" "a1" "" 300 301 job2 job1 q2-IsNumbered first_is_job2
      second_is_job1

lookup-expire_stale-prune_example :
    (lookup "job-2" (expire_stale plain q2 20_000_000_000).0.jobs
      ≡ expired plain 20_000_000_000 (lookup "job-2" q2.jobs))
    × (lookup "job-2" (prune plain q2 (pos 5) 20_000_000_000).0.jobs
        ≡ pruned plain (pos 5) 20_000_000_000 (lookup "job-2" q2.jobs))
lookup-expire_stale-prune_example =
    lookup-expire_stale-prune plain q2 20_000_000_000 (pos 5) "job-2" (omega arith, omega arith)
