-- ===== src/Scheduler/Shutdown.antt =====
-- pkg/scheduler/scheduler.go: `StopAll` after a history of calls.
use mathlib.Core.Path.{subst}
use spectral_cloud.Prelude.{
  ◌<◌, String, ◌≡◌, refl, Option, none, some, List, [], ◌∷◌, arith, eq_iff, eq_refl, if◌then◌else◌,
  Option-cases, Bool-cases, inl, inr, length, ap, ◌∙◌, sym, ◌==◌,
}
use spectral_cloud.Prelude.Int.{word}
use spectral_cloud.Prelude.Dict.{lookup, insert, keys, lookup-insert}
use spectral_cloud.Prelude.Sweep.{sweep-keys}
use spectral_cloud.Persist.{Host, Codec}
use spectral_cloud.Jobs.{Queue}
use spectral_cloud.Jobs.Record.{Job}
use spectral_cloud.Scheduler.Record.{Schedule, ScheduleEntry, Runner}
use spectral_cloud.Scheduler.State.{Manager, stop_locked, new}
use spectral_cloud.Scheduler.{stop_one, stop_all}
use spectral_cloud.Prelude.Sweep.{sweep-keeps}
use spectral_cloud.Scheduler.Runners.{runners_of, one_runner, Fits}
use spectral_cloud.Scheduler.Arming.{stop_locked-Stops}
use spectral_cloud.Scheduler.Standing.{IsStanding}
use spectral_cloud.Scheduler.History.{Call, run, run-IsStanding, new-IsStanding, new_room}

module _ {h : Host} (codec : Codec h (Schedule h.Payload)) where
  -- The entry after its goroutine is stopped.
  halted : Option (ScheduleEntry h.Payload) → Option (ScheduleEntry h.Payload)
  halted none = none
  halted (some e) = some (record e { cancel = none })

  -- Whether or not the schedule is active, its goroutines are those of its context.
  Matches : String → List Runner → Option (ScheduleEntry h.Payload) → Type 0
  Matches id runs none = runners_of id runs ≡ []
  Matches id runs (some e) =
      (e.sched.id ≡ id) × (runners_of id runs ≡ one_runner id e.sched.interval e.cancel)

  stored_halted :
      (m : Manager h) (k : String) (e : ScheduleEntry h.Payload)
      → (stop_locked m k e).schedules ≡ insert k (record e { cancel = none }) m.schedules
  unfolding stop_locked
  stored_halted m k e = elim (Option-cases e.cancel) [
    | inl n ↦ rw (n, stop_locked) (ap (λ c. insert k (record e { cancel = c }) m.schedules) n)
    | inr (c, n) ↦ rw (n, stop_locked) refl
  ]

  lookup-stop_one :
      (m : Manager h) (j k : String)
      → lookup k (stop_one codec m j).schedules
        ≡ (if k == j then halted (lookup k m.schedules) else lookup k m.schedules)
  unfolding stop_one halted
  lookup-stop_one m j k = elim (Option-cases (lookup j m.schedules)) [
    | inl n ↦
        rw (n, stop_one)
          (elim (Bool-cases (k == j)) [
            | inl d ↦ ground (arith, d, eq_iff k j, n)
            | inr d ↦ ground (arith, d)
          ])
    | inr (e, n) ↦
        rw (n, stop_one)
          (ap (lookup k) (stored_halted m j e)
            ∙ lookup-insert j k (record e { cancel = none }) m.schedules
            ∙ elim (Bool-cases (k == j)) [
              | inl d ↦ ground (arith, d, eq_iff k j, n)
              | inr d ↦ ground (arith, d)
            ])
  ]

  Matches-same :
      (k : String) (xs ys : List Runner) (o : Option (ScheduleEntry h.Payload))
      → runners_of k ys ≡ runners_of k xs
      → Matches k xs o
      → Matches k ys o
  unfolding Matches
  Matches-same k xs ys none e f = e ∙ f
  Matches-same k xs ys (some x) e f = (f.0, e ∙ f.1)

  stop_locked-Matches :
      (m : Manager h) (j : String) (e : ScheduleEntry h.Payload)
      → lookup j m.schedules ≡ some e
      → ((k : String) → Matches k m.runs (lookup k m.schedules))
      → (k : String) → Matches k (stop_locked m j e).runs (lookup k (stop_locked m j e).schedules)
  unfolding Matches
  stop_locked-Matches m j e n v k =
      let fit : Matches j m.runs (some e) = subst (Matches j m.runs) n (v j) in
      let s = stop_locked-Stops codec m j e e.sched.interval fit.0 fit.1 in
      elim (Bool-cases (k == j)) [
        | inl d ↦
            let key : j ≡ k = ground (arith, eq_iff k j, d) in
            let entry : lookup k (stop_locked m j e).schedules ≡ some (record e { cancel = none }) =
              ap (lookup k) (stored_halted m j e)
              ∙ lookup-insert j k (record e { cancel = none }) m.schedules
              ∙ ground (arith, d) in
            subst (Matches k (stop_locked m j e).runs) (sym entry)
              (fit.0 ∙ key, ap (λ i. runners_of i (stop_locked m j e).runs) (sym key) ∙ s.idle)
        | inr d ↦ subst (Matches k (stop_locked m j e).runs) (sym (s.kept k d)) (
            Matches-same k m.runs (stop_locked m j e).runs (lookup k m.schedules) (s.others k d)
              (v k))
      ]

  stop_one-Matches :
      (m : Manager h) (j : String)
      → ((k : String) → Matches k m.runs (lookup k m.schedules))
      → (k : String) → Matches k (stop_one codec m j).runs (lookup k (stop_one codec m j).schedules)
  unfolding stop_one
  stop_one-Matches m j v k = elim (Option-cases (lookup j m.schedules)) [
    | inl n ↦ rw (n, stop_one) (v k)
    | inr (e, n) ↦ rw (n, stop_one) (stop_locked-Matches m j e n v k)
  ]

  halted_idem : (o : Option (ScheduleEntry h.Payload)) → halted (halted o) ≡ halted o
  unfolding halted
  halted_idem none = refl
  halted_idem (some e) = refl

  halted_idle :
      (k : String) (runs : List Runner) (o : Option (ScheduleEntry h.Payload))
      → Matches k runs (halted o)
      → runners_of k runs ≡ []
  unfolding Matches halted
  halted_idle k runs none f = f
  halted_idle k runs (some e) f = f.1

  Fits-match :
      (k : String) (runs : List Runner) (o : Option (ScheduleEntry h.Payload))
      → Fits k runs o
      → Matches k runs o
  unfolding Matches
  Fits-match k runs none f = f
  Fits-match k runs (some e) f = (f.0, f.1)

  no_runners : (runs : List Runner) → ((k : String) → runners_of k runs ≡ []) → runs ≡ []
  no_runners [] v = refl
  no_runners (r ∷ rs) v = absurd (ground (arith, eq_refl r.id, v r.id))

  stop_all_runs : (m : Manager h) → IsStanding m → (stop_all codec m).runs ≡ []
  unfolding stop_all halted
  stop_all_runs m v =
      let n = stop_all codec m in
      let all : (k : String) → Matches k n.runs (lookup k n.schedules) =
        sweep-keeps (stop_one codec) (λ s. (k : String) → Matches k s.runs (lookup k s.schedules))
          (λ s j w. stop_one-Matches s j w) (keys m.schedules) m
          (λ k. Fits-match k m.runs (lookup k m.schedules) (v.each k)) in
      no_runners n.runs (λ k.
        let o : lookup k n.schedules ≡ halted (lookup k m.schedules) =
          sweep-keys (stop_one codec) (λ s i. lookup i s.schedules) halted halted_idem
            (λ s j i. lookup-stop_one s j i) m.schedules m k refl refl in
        halted_idle k n.runs (lookup k m.schedules) (subst (Matches k n.runs) o (all k)))

module _ {h : Host} (codec : Codec h (Schedule h.Payload)) (jobs : Codec h (Job h.Payload)) where
  -- `StopAll` at the end of any history of `Add`, `Update`, `Delete` and ticks, of fewer than 2^64
  -- calls, leaves no goroutine running.
  pub stop_all-run :
      (cs : List (Call h.Payload)) (q : Option (Queue h))
      → length cs < word
      → (stop_all codec (run codec jobs (new codec, q) cs).0).runs ≡ []
  stop_all-run cs q room = stop_all_runs codec (run codec jobs (new codec, q) cs).0 (
      run-IsStanding codec jobs cs (new codec, q) (new-IsStanding codec jobs)
        (new_room codec jobs cs room))
