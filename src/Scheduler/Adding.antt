-- ===== src/Scheduler/Adding.antt =====
-- pkg/scheduler/scheduler.go: the schedule that `Add` makes.
use mathlib.Core.Path.{subst}
use spectral_cloud.Prelude.{
  ℕ, ◌+◌, ◌%◌, ◌<◌, ◌≤◌, String, ◌≡◌, refl, true, false, none, [], arith, Bool-cases, inl, inr, ap,
  ◌∙◌, ◌==◌,
}
use spectral_cloud.Prelude.Int.{word, ltb_ℤ}
use spectral_cloud.Prelude.Clock.{Time, Duration}
use spectral_cloud.Prelude.Dict.{lookup, insert, lookup-insert}
use spectral_cloud.Persist.{Host, Codec}
use spectral_cloud.Scheduler.Record.{Schedule, ScheduleEntry, min_interval, sched_id}
use spectral_cloud.Scheduler.State.{Manager, start_locked, persist}
use spectral_cloud.Scheduler.{add}
use spectral_cloud.Scheduler.Runners.{
  runners_of, Fits, Sets, Sets-Fits, Sets-before, start_locked-Sets,
}
use spectral_cloud.Scheduler.Arming.{persist-Same}
use spectral_cloud.Scheduler.Standing.{IsStanding, sched_id_ne}

module _ {h : Host} (codec : Codec h (Schedule h.Payload)) where
  -- What `Add` does with its new schedule.
  added : Manager h → Schedule h.Payload → ℕ → Manager h
  added m s n =
      let e : ScheduleEntry h.Payload = record { sched = s; cancel = none } in
      start_locked
        (persist codec (record m { counter = n; schedules = insert s.id e m.schedules }) s) s.id e

  added-Sets :
      (m : Manager h) (s : Schedule h.Payload) (n : ℕ)
      → s.active ≡ true
      → runners_of s.id m.runs ≡ []
      → Sets (record m { counter = n }) (added m s n) s.id
  unfolding added
  added-Sets m s n on idle =
      let e : ScheduleEntry h.Payload = record { sched = s; cancel = none } in
      let m1 : Manager h = record m { counter = n; schedules = insert s.id e m.schedules } in
      let same = persist-Same codec m1 s in
      Sets-before (record m { counter = n }) (persist codec m1 s)
        (start_locked (persist codec m1 s) s.id e) s.id
        (start_locked-Sets (persist codec m1 s) s.id e refl on
          (ap (runners_of s.id) same.runs ∙ idle))
        same.counter
        (λ j d.
          ap (lookup j) same.schedules ∙ lookup-insert s.id j e m.schedules ∙ ground (arith, d))
        (λ j d. ap (runners_of j) same.runs)

  added-IsStanding :
      (m : Manager h) (s : Schedule h.Payload)
      → IsStanding m
      → m.counter + 1 < word
      → s.active ≡ true
      → s.id ≡ sched_id (m.counter + 1)
      → IsStanding (added m s (m.counter + 1))
        × ((added m s (m.counter + 1)).counter ≡ m.counter + 1)
  added-IsStanding m s v room on own =
      let n = m.counter + 1 in
      let unused : lookup s.id m.schedules ≡ none =
        ap (λ k. lookup k m.schedules) own ∙ v.free n (omega arith) room in
      let idle : runners_of s.id m.runs ≡ [] = subst (Fits s.id m.runs) unused (v.each s.id) in
      let sets = added-Sets m s n on idle in
      (
        record {
          each = Sets-Fits (record m { counter = n }) (added m s n) s.id sets v.each;
          free = λ i more low.
              let beyond : n < i = ground (arith, sets.counter, more) in
              let apart : (sched_id i == s.id) ≡ false =
                ap (◌==◌ (sched_id i)) own ∙ sched_id_ne n i room low beyond in
              sets.stored (sched_id i)
              ∙ ground (arith, apart, v.free i (omega (arith, beyond)) low);
        },
        sets.counter,
      )

  pub add-IsStanding :
      (m : Manager h) (name tenant agent_id capability : String) (payload : h.Payload)
      (interval : Duration) (now : Time)
      → IsStanding m
      → m.counter + 1 < word
      → IsStanding (add codec m name tenant agent_id capability payload interval now).0
        × ((add codec m name tenant agent_id capability payload interval now).0.counter
            ≤ m.counter + 1)
  unfolding add added
  add-IsStanding m name tenant agent_id capability payload interval now v room =
      elim (Bool-cases (name == "")) [
        | inl e ↦ rw (e, add) (v, omega arith)
        | inr e ↦ elim (Bool-cases (ltb_ℤ interval min_interval)) [
          | inl t ↦ rw (e, add) (rw (t, add) (v, omega arith))
          | inr t ↦
              let s : Schedule h.Payload = record {
                id = sched_id (m.counter + 1);
                name = name;
                tenant = tenant;
                agent_id = agent_id;
                capability = capability;
                payload = payload;
                interval = interval;
                active = true;
                created_at = now;
                last_run = none;
                run_count = 0;
              } in
              let plain : (m.counter + 1) % word ≡ m.counter + 1 = omega (arith, room) in
              let (stands, counted) = added-IsStanding m s v room refl refl in
              rw (e, add) (rw (t, add) (rw plain (stands, omega (arith, counted))))
        ]
      ]
