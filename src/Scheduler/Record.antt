-- ===== src/Scheduler/Record.antt =====
-- pkg/scheduler/scheduler.go: the data of the scheduler. `clonePayload` copies a map, so the copy
-- is the payload itself here.
use Prim.Native.String.{◌++◌ as str_append}
use spectral_cloud.Prelude.{ℕ, String, Bool, not, Option, none, some, List, ◌==◌, ◌&&◌, eqb, select}
use spectral_cloud.Prelude.Int.{pos}
use spectral_cloud.Prelude.Clock.{Time, Duration}
use spectral_cloud.Prelude.Decimal.{show, scan, strip_prefix}

pub record Schedule (P : Type 0) : Type 0 where
  pub id : String
  pub name : String
  pub tenant : String
  pub agent_id : String
  pub capability : String
  pub payload : P
  pub interval : Duration
  pub active : Bool
  pub created_at : Time
  pub last_run : Option Time
  pub run_count : ℕ

-- `cancel` is the number of the context that stops the goroutine of the entry.
pub record ScheduleEntry (P : Type 0) : Type 0 where
  pub sched : Schedule P
  pub cancel : Option ℕ

-- A goroutine in `run` that has not been cancelled: its context, the schedule that it submits and
-- the period of its ticker.
pub record Runner : Type 0 where
  pub context : ℕ
  pub id : String
  pub period : Duration

pub record UpdateParams (P : Type 0) : Type 0 where
  pub name : Option String
  pub agent_id : Option String
  pub capability : Option String
  pub payload : Option P
  pub interval : Option Duration
  pub active : Option Bool

pub data ScheduleError : Type 0 where
  name_required : ScheduleError
  interval_too_short : ScheduleError

pub data UpdateReply (P : Type 0) : Type 0 where
  not_found : UpdateReply P
  rejected : ScheduleError → UpdateReply P
  updated : Schedule P → UpdateReply P

abbrev pub sched_key_prefix : String
sched_key_prefix = "sched_"

-- 50*time.Millisecond
abbrev pub min_interval : Duration
min_interval = pos 50_000_000

unfoldable pub parse_sched_num : String → ℕ
unfolding strip_prefix scan
parse_sched_num id = elim (strip_prefix "sched-" id) [ none ↦ 0 | some rest ↦ scan rest ]

unfoldable pub sched_id : ℕ → String
sched_id n = str_append "sched-" (show n)

-- What the goroutines are after the context of a schedule's goroutine is cancelled.
unfoldable pub without : String → ℕ → List Runner → List Runner
without id context runs = select (λ r. not (r.id == id && eqb r.context context)) runs
