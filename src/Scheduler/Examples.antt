-- ===== src/Scheduler/Examples.antt =====
-- Tests of the scheduler, and its theorems at concrete inputs.
use spectral_cloud.Prelude.{◌≡◌, String, Option, none, some, List, [], ◌∷◌, arith, true, false, map}
use spectral_cloud.Prelude.Int.{pos}
use spectral_cloud.Persist.{Host, Codec}
use spectral_cloud.Jobs.Record.{Job}
use spectral_cloud.Jobs.{Queue, new_queue}
use spectral_cloud.Scheduler.Record.{Schedule, ScheduleEntry, UpdateParams}
use spectral_cloud.Scheduler.State.{Manager, new}
use spectral_cloud.Scheduler.{get, stop_all}
use spectral_cloud.Scheduler.Runners.{runners_of}
use spectral_cloud.Scheduler.History.{
  Call, add_call, update_call, tick_call, run, due, run-new-periods,
}
use spectral_cloud.Scheduler.Shutdown.{stop_all-run}

-- A host without storage.
abbrev bare : Host
bare = record {
  Payload = String;
  Data = String;
  Db = String;
  put = λ t k v d. d;
  delete = λ t k d. d;
  scan = λ t p d. some [];
}

abbrev schedules : Codec bare (Schedule String)
schedules = record { encode = λ s. none; decode = λ v. none }

abbrev jobs : Codec bare (Job String)
jobs = record { encode = λ j. none; decode = λ v. none }

abbrev no_change : UpdateParams String
no_change = record {
  name = none;
  agent_id = none;
  capability = none;
  payload = none;
  interval = none;
  active = none;
}

-- Two schedules; the first gets a new interval and runs once, the second is paused.
abbrev calls : List (Call String)
calls =
    add_call "a" "t" "" "ocr" "p" (pos 50_000_000) 1
    ∷ add_call "b" "t" "" "ocr" "p" (pos 60_000_000) 2
    ∷ update_call "t" "sched-1" (record no_change { interval = some (pos 70_000_000) })
    ∷ tick_call "sched-1" 9
    ∷ update_call "t" "sched-2" (record no_change { active = some false })
    ∷ []

abbrev queue : Option (Queue bare)
queue = some (new_queue jobs)

run-new-periods_example :
    let m = (run schedules jobs (new schedules, queue) calls).0 in
    map (λ r. r.period) (runners_of "sched-1" m.runs)
    ≡ due schedules jobs (get schedules m "sched-1")
run-new-periods_example = run-new-periods schedules jobs calls queue "sched-1" (omega arith)

stop_all-run_example :
    (stop_all schedules (run schedules jobs (new schedules, queue) calls).0).runs ≡ []
stop_all-run_example = stop_all-run schedules jobs calls queue (omega arith)

abbrev hourly : ScheduleEntry String
hourly = record {
  sched = record {
    id = "sched-1";
    name = "a";
    tenant = "t";
    agent_id = "";
    capability = "ocr";
    payload = "p";
    interval = pos 3_600_000_000_000;
    active = true;
    created_at = 1;
    last_run = none;
    run_count = 0;
  };
  cancel = some 0;
}

abbrev one : Manager bare
one = record {
  schedules = ("sched-1", hourly) ∷ [];
  counter = 1;
  db = none;
  contexts = 1;
  runs = record { context = 0; id = "sched-1"; period = pos 3_600_000_000_000 } ∷ [];
}

abbrev too_often : UpdateParams String
too_often = record no_change { name = some "b"; interval = some (pos 1000) }
