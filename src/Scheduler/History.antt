-- ===== src/Scheduler/History.antt =====
-- pkg/scheduler/scheduler.go: what holds after a history of calls, and `StopAll` at its end.
use spectral_cloud.Prelude.{
  ◌+◌, ◌<◌, ◌≤◌, String, ◌≡◌, refl, true, false, Option, none, some, List, [], ◌∷◌, arith,
  if◌then◌else◌, Option-cases, inl, inr, length, ap, ◌∙◌, sym, map,
}
use spectral_cloud.Prelude.Int.{word}
use spectral_cloud.Prelude.Clock.{Time, Duration}
use spectral_cloud.Prelude.Dict.{lookup, lookup-nil}
use spectral_cloud.Persist.{Host, Codec}
use spectral_cloud.Jobs.{Queue}
use spectral_cloud.Jobs.Record.{Job}
use spectral_cloud.Scheduler.Record.{Schedule, ScheduleEntry, UpdateParams, sched_id}
use spectral_cloud.Scheduler.State.{Manager, new}
use spectral_cloud.Scheduler.{add, tick, update, delete, get}
use spectral_cloud.Scheduler.Runners.{runners_of, one_runner, is_armed, Fits}
use spectral_cloud.Scheduler.Standing.{
  IsStanding, update-IsStanding, delete-IsStanding, record_run-IsStanding,
}
use spectral_cloud.Scheduler.Adding.{add-IsStanding}

pub data Call (P : Type 0) : Type 0 where
  add_call : String → String → String → String → P → Duration → Time → Call P
  update_call : String → String → UpdateParams P → Call P
  delete_call : String → Call P
  tick_call : String → Time → Call P

module _ {h : Host} (codec : Codec h (Schedule h.Payload)) (jobs : Codec h (Job h.Payload)) where
  abbrev pub step : Manager h × Option (Queue h) → Call h.Payload → Manager h × Option (Queue h)
  step (m, q) (add_call name tenant agent_id capability payload interval now) =
      ((add codec m name tenant agent_id capability payload interval now).0, q)
  step (m, q) (update_call tenant id params) = ((update codec m tenant id params).0, q)
  step (m, q) (delete_call id) = ((delete codec m id).0, q)
  step (m, q) (tick_call id now) = tick codec jobs m q id now

  abbrev pub run :
      Manager h × Option (Queue h) → List (Call h.Payload) → Manager h × Option (Queue h)
  run s [] = s
  run s (c ∷ cs) = run (step s c) cs

  step-IsStanding :
      (s : Manager h × Option (Queue h)) (c : Call h.Payload)
      → IsStanding s.0
      → s.0.counter + 1 < word
      → IsStanding (step s c).0 × ((step s c).0.counter ≤ s.0.counter + 1)
  unfolding tick
  step-IsStanding (m, q) (add_call name tenant agent_id capability payload interval now) v room =
      add-IsStanding codec m name tenant agent_id capability payload interval now v room
  step-IsStanding (m, q) (update_call tenant id params) v room =
      let (w, e) = update-IsStanding codec m tenant id params v in (w, omega (arith, e))
  step-IsStanding (m, q) (delete_call id) v room =
      let (w, e) = delete-IsStanding codec m id v in (w, omega (arith, e))
  step-IsStanding (m, q) (tick_call id now) v room =
      let (w, e) = record_run-IsStanding codec m id now v in (w, omega (arith, e))

  pub run-IsStanding :
      (cs : List (Call h.Payload)) (s : Manager h × Option (Queue h))
      → IsStanding s.0
      → s.0.counter + length cs < word
      → IsStanding (run s cs).0
  run-IsStanding [] s v room = v
  run-IsStanding (c ∷ cs) s v room =
      let (w, e) = step-IsStanding s c v (omega (arith, room)) in
      run-IsStanding cs (step s c) w (omega (arith, room, e))

  pub new-IsStanding : IsStanding (new codec)
  unfolding new
  new-IsStanding = record {
    each = λ j. rw (lookup-nil j) refl;
    free = λ n more room. lookup-nil (sched_id n);
  }

  pub new_room :
      (cs : List (Call h.Payload)) → length cs < word → (new codec).counter + length cs < word
  unfolding new
  new_room cs r = omega (arith, r)

  -- The intervals at which a schedule should submit.
  abbrev pub due : Option (Schedule h.Payload) → List Duration
  due none = []
  due (some s) = if s.active then s.interval ∷ [] else []

  periods_fit :
      (m : Manager h) (id : String) (o : Option (ScheduleEntry h.Payload))
      → Fits id m.runs o
      → map (λ r. r.period) (runners_of id m.runs)
        ≡ due (elim o [ none ↦ none | some e ↦ some e.sched ])
  periods_fit m id none f = ap (map (λ r. r.period)) f
  periods_fit m id (some e) f = elim (Option-cases e.cancel) [
    | inl n ↦
        let off : e.sched.active ≡ false = sym f.2 ∙ ap is_armed n in
        ap (map (λ r. r.period)) (f.1 ∙ ap (one_runner id e.sched.interval) n) ∙ ground (arith, off)
    | inr (c, n) ↦
        let on : e.sched.active ≡ true = sym f.2 ∙ ap is_armed n in
        ap (map (λ r. r.period)) (f.1 ∙ ap (one_runner id e.sched.interval) n) ∙ ground (arith, on)
  ]

  -- After any calls of `Add`, `Update` and `Delete` and any ticks, in any order, late ticks
  -- included, a schedule that is active has one goroutine, whose ticker has its present interval,
  -- and there is none for any other identifier. There are fewer than 2^64 calls.
  pub run-new-periods :
      (cs : List (Call h.Payload)) (q : Option (Queue h)) (id : String)
      → length cs < word
      → (let m = (run (new codec, q) cs).0 in
          map (λ r. r.period) (runners_of id m.runs) ≡ due (get codec m id))
  unfolding get
  run-new-periods cs q id room =
      let m = (run (new codec, q) cs).0 in
      let v = run-IsStanding cs (new codec, q) new-IsStanding (new_room cs room) in
      periods_fit m id (lookup id m.schedules) (v.each id)
