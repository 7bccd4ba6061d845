-- ===== src/Scheduler.antt =====
-- pkg/scheduler/scheduler.go: schedules that submit jobs. Each active schedule has a goroutine with
-- a ticker; `runs` lists those that are not cancelled, and `tick` is what one does when its ticker
-- fires. The queue of jobs is an argument of `tick`.
pub mod Record
pub mod State
pub mod Runners
pub mod Arming
pub mod Standing
pub mod Adding
pub mod History
pub mod Shutdown
pub mod Refused
mod Examples
use Prim.Native.String.{◌++◌ as str_append}
use spectral_cloud.Prelude.{
  ℕ, ◌+◌, ◌%◌, String, Bool, true, false, not, Option, none, some, List, [], ◌∷◌, ◌==◌, ◌&&◌, ltb,
  if◌then◌else◌, length, map, ◌⊎◌, inl, inr,
}
use spectral_cloud.Prelude.Int.{word, ltb_ℤ, eqb_ℤ}
use spectral_cloud.Prelude.Clock.{Time, Duration}
use spectral_cloud.Prelude.Dict.{Dict, lookup, insert, remove, keys, values}
use spectral_cloud.Prelude.Sweep.{sweep}
use spectral_cloud.Persist.{Host, Codec}
use spectral_cloud.Jobs.{Queue, submit}
use spectral_cloud.Jobs.Record.{Job}
use Record.{
  Schedule, ScheduleEntry, Runner, UpdateParams, ScheduleError, name_required, interval_too_short,
  UpdateReply, not_found, rejected, updated, sched_key_prefix, min_interval, parse_sched_num,
  sched_id, without,
}
use State.{
  Manager, start_locked, stop_locked, new, new_with_store, persist, unpersist, decode_all,
  restore_one, restore, load_from_store,
}

module _ {h : Host} (codec : Codec h (Schedule h.Payload)) where
  unfoldable pub add :
      Manager h
      → String
      → String
      → String
      → String
      → h.Payload
      → Duration
      → Time
      → Manager h × (ScheduleError ⊎ Schedule h.Payload)
  unfolding sched_id persist start_locked
  add m name tenant agent_id capability payload interval now =
      if name == ""
      then (m, inl name_required)
      else if ltb_ℤ interval min_interval
      then (m, inl interval_too_short)
      else (let n = (m.counter + 1) % word in
          let s : Schedule h.Payload = record {
            id = sched_id n;
            name = name;
            tenant = tenant;
            agent_id = agent_id;
            capability = capability;
            payload = payload;
            interval = interval;
            active = true;
            created_at = now;
            last_run = none;
            run_count = 0;
          } in
          let e : ScheduleEntry h.Payload = record { sched = s; cancel = none } in
          let m1 = record m { counter = n; schedules = insert s.id e m.schedules } in
          (start_locked (persist codec m1 s) s.id e, inr s))

  -- What `snapshotSubmission` returns.
  unfoldable pub snapshot_submission :
      Manager h → String → Option (String × String × String × h.Payload)
  snapshot_submission m id = elim (lookup id m.schedules) [
    | none ↦ none
    | some e ↦
        if not e.sched.active
        then none
        else some (e.sched.tenant, e.sched.agent_id, e.sched.capability, e.sched.payload)
  ]

  -- The second half of a tick, which counts the run.
  unfoldable pub record_run : Manager h → String → Time → Manager h
  unfolding persist
  record_run m id now = elim (lookup id m.schedules) [
    | none ↦ m
    | some e ↦
        let s : Schedule h.Payload = record e.sched {
          last_run = some now;
          run_count = (e.sched.run_count + 1) % word;
        } in
        persist codec (record m { schedules = insert id (record e { sched = s }) m.schedules }) s
  ]

  -- A tick of the goroutine of a schedule; `q` is `none` for a manager without a queue.
  unfoldable pub tick :
      (jobs : Codec h (Job h.Payload))
      → Manager h
      → Option (Queue h)
      → String
      → Time
      → Manager h × Option (Queue h)
  unfolding snapshot_submission record_run submit
  tick jobs m q id now =
      let r : Option (Queue h) = elim q [
        | none ↦ none
        | some queue ↦ elim (snapshot_submission m id) [
          | none ↦ some queue
          | some (tenant, agent_id, capability, payload) ↦
              some (submit jobs queue tenant agent_id capability payload now).0
        ]
      ] in
      (record_run m id now, r)

  abbrev pub or_else {ℓ} : {A : Type ℓ} → A → Option A → A
  or_else old none = old
  or_else old (some new) = new

  -- What the `switch` of `Update` does with the goroutine.
  unfoldable pub rearm : Manager h → String → ScheduleEntry h.Payload → Bool → Bool → Manager h
  unfolding start_locked stop_locked
  rearm m id e was_active interval_changed =
      if was_active && not e.sched.active
      then stop_locked m id e
      else if not was_active && e.sched.active
      then start_locked m id e
      else if was_active && e.sched.active && interval_changed
      then start_locked (stop_locked m id e) id e
      else record m { schedules = insert id e m.schedules }

  unfoldable pub finish_update :
      Manager h
      → String
      → ScheduleEntry h.Payload
      → Bool
      → Bool
      → Option Bool
      → Manager h × UpdateReply h.Payload
  unfolding rearm persist
  finish_update m id e was_active interval_changed active =
      let s : Schedule h.Payload = record e.sched { active = or_else e.sched.active active } in
      (persist codec (rearm m id (record e { sched = s }) was_active interval_changed) s, updated s)

  -- The schedule is changed in place, so what was set before an error stays.
  unfoldable pub update_interval :
      Manager h
      → String
      → ScheduleEntry h.Payload
      → UpdateParams h.Payload
      → Manager h × UpdateReply h.Payload
  unfolding finish_update
  update_interval m id e params = elim params.interval [
    | none ↦ finish_update m id e e.sched.active false params.active
    | some d ↦
        if ltb_ℤ d min_interval
        then (record m { schedules = insert id e m.schedules }, rejected interval_too_short)
        else finish_update m id (record e { sched = record e.sched { interval = d } })
            e.sched.active (not (eqb_ℤ e.sched.interval d)) params.active
  ]

  abbrev pub relabelled : UpdateParams h.Payload → Schedule h.Payload → Schedule h.Payload
  relabelled params s = record s {
    name = or_else s.name params.name;
    agent_id = or_else s.agent_id params.agent_id;
    capability = or_else s.capability params.capability;
    payload = or_else s.payload params.payload;
  }

  abbrev pub is_empty_name : Option String → Bool
  is_empty_name none = false
  is_empty_name (some n) = n == ""

  unfoldable pub update :
      Manager h → String → String → UpdateParams h.Payload → Manager h × UpdateReply h.Payload
  unfolding update_interval
  update m tenant id params = elim (lookup id m.schedules) [
    | none ↦ (m, not_found)
    | some e ↦
        if not (tenant == "") && not (e.sched.tenant == tenant)
        then (m, not_found)
        else if is_empty_name params.name
        then (m, rejected name_required)
        else update_interval m id (record e { sched = relabelled params e.sched }) params
  ]

  unfoldable pub delete : Manager h → String → Manager h × Bool
  unfolding stop_locked unpersist
  delete m id = elim (lookup id m.schedules) [
    | none ↦ (m, false)
    | some e ↦
        let m1 = unpersist codec (stop_locked m id e) e.sched in
        (record m1 { schedules = remove id m1.schedules }, true)
  ]

  unfoldable pub get : Manager h → String → Option (Schedule h.Payload)
  get m id = elim (lookup id m.schedules) [ none ↦ none | some e ↦ some e.sched ]

  unfoldable pub list : Manager h → List (Schedule h.Payload)
  list m = map (λ e. e.sched) (values m.schedules)

  -- One round of the loop of `StopAll`.
  unfoldable pub stop_one : Manager h → String → Manager h
  unfolding stop_locked
  stop_one m id = elim (lookup id m.schedules) [ none ↦ m | some e ↦ stop_locked m id e ]

  unfoldable pub stop_all : Manager h → Manager h
  unfolding sweep stop_one
  stop_all m = sweep stop_one m (keys m.schedules)
