-- ===== src/Scheduler/State.antt =====
-- pkg/scheduler/scheduler.go: the state of the scheduler, its goroutines and its persistence.
use Prim.Native.String.{◌++◌ as str_append}
use spectral_cloud.Prelude.{
  ℕ, ◌+◌, String, Option, none, some, List, [], ◌∷◌, ltb, if◌then◌else◌, length,
}
use spectral_cloud.Prelude.Dict.{Dict, insert}
use spectral_cloud.Persist.{Host, Codec}
use spectral_cloud.Scheduler.Record.{
  Schedule, ScheduleEntry, Runner, sched_key_prefix, parse_sched_num, without,
}

pub record Manager (h : Host) : Type 0 where
  pub schedules : Dict (ScheduleEntry h.Payload)
  pub counter : ℕ
  pub db : Option h.Db
  -- The number of contexts made so far, and the goroutines whose context is not cancelled.
  pub contexts : ℕ
  pub runs : List Runner

module _ {h : Host} where
  unfoldable pub start_locked : Manager h → String → ScheduleEntry h.Payload → Manager h
  start_locked m id e =
      let r : Runner = record {
        context = m.contexts;
        id = e.sched.id;
        period = e.sched.interval;
      } in
      record m {
        schedules = insert id (record e { cancel = some m.contexts }) m.schedules;
        contexts = m.contexts + 1;
        runs = r ∷ m.runs;
      }

  unfoldable pub stop_locked : Manager h → String → ScheduleEntry h.Payload → Manager h
  unfolding without
  stop_locked m id e = elim e.cancel [
    | none ↦ record m { schedules = insert id e m.schedules }
    | some c ↦ record m {
      schedules = insert id (record e { cancel = none }) m.schedules;
      runs = without e.sched.id c m.runs;
    }
  ]

module _ {h : Host} (codec : Codec h (Schedule h.Payload)) where
  unfoldable pub new : Manager h
  new = record { schedules = []; counter = 0; db = none; contexts = 0; runs = [] }

  unfoldable pub new_with_store : h.Db → Manager h
  new_with_store d = record { schedules = []; counter = 0; db = some d; contexts = 0; runs = [] }

  unfoldable pub persist : Manager h → Schedule h.Payload → Manager h
  persist m s = elim m.db [
    | none ↦ m
    | some d ↦ elim (codec.encode s) [
      | none ↦ m
      | some v ↦ record m { db = some (h.put s.tenant (str_append sched_key_prefix s.id) v d) }
    ]
  ]

  unfoldable pub unpersist : Manager h → Schedule h.Payload → Manager h
  unpersist m s = elim m.db [
    | none ↦ m
    | some d ↦ record m { db = some (h.delete s.tenant (str_append sched_key_prefix s.id) d) }
  ]

  unfoldable pub decode_all : List h.Data → List (Schedule h.Payload)
  decode_all [] = []
  decode_all (v ∷ vs) =
      let rest = decode_all vs in elim (codec.decode v) [ none ↦ rest | some s ↦ s ∷ rest ]

  -- One round of the loop over the loaded schedules: an entry that is replaced keeps its goroutine.
  unfoldable pub restore_one : Manager h → Schedule h.Payload → Manager h
  unfolding parse_sched_num start_locked
  restore_one m s =
      let n = parse_sched_num s.id in
      let e : ScheduleEntry h.Payload = record { sched = s; cancel = none } in
      let m1 = record m {
        schedules = insert s.id e m.schedules;
        counter = if ltb m.counter n then n else m.counter;
      } in
      if s.active then start_locked m1 s.id e else m1

  unfoldable pub restore : Manager h → List (Schedule h.Payload) → Manager h
  unfolding restore_one
  restore m [] = m
  restore m (s ∷ ss) = restore (restore_one m s) ss

  unfoldable pub load_from_store : Manager h → String → Manager h × Option ℕ
  unfolding restore decode_all
  load_from_store m tenant = elim m.db [
    | none ↦ (m, some 0)
    | some d ↦ elim (h.scan tenant sched_key_prefix d) [
      | none ↦ (m, none)
      | some vs ↦ (restore m (decode_all vs), some (length (decode_all vs)))
    ]
  ]
