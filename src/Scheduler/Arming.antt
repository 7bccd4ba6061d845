-- ===== src/Scheduler/Arming.antt =====
-- pkg/scheduler/scheduler.go: what each call does to the goroutines of its schedule.
use mathlib.Core.Path.{subst}
use spectral_cloud.Prelude.{
  String, ◌≡◌, refl, Bool, true, false, Option, none, some, [], arith, Option-cases, Bool-cases,
  inl, inr, ap, ◌∙◌, sym, ◌==◌, ◌&&◌, not,
}
use spectral_cloud.Prelude.Int.{ℤ, pos, negsuc, ltb_ℤ, eqb_ℤ}
use spectral_cloud.Prelude.Clock.{Duration}
use spectral_cloud.Prelude.Dict.{lookup, lookup-insert}
use spectral_cloud.Persist.{Host, Codec}
use spectral_cloud.Scheduler.Record.{Schedule, ScheduleEntry, UpdateParams, min_interval, without}
use spectral_cloud.Scheduler.State.{Manager, start_locked, stop_locked, persist, unpersist}
use spectral_cloud.Scheduler.{or_else, rearm, finish_update, update_interval}
use spectral_cloud.Scheduler.Runners.{
  runners_of, one_runner, is_armed, Fits, Sets, Same, Sets-after, Sets-before, store-Sets,
  start_locked-Sets, stop_locked-Sets, runners_of-without, without_one,
}

eqb_ℤ_eq : (a b : ℤ) → eqb_ℤ a b ≡ true → a ≡ b
eqb_ℤ_eq (pos a) (pos b) h = ap pos (ground (arith, h))
eqb_ℤ_eq (pos a) (negsuc b) h = absurd (ground (arith, h))
eqb_ℤ_eq (negsuc a) (pos b) h = absurd (ground (arith, h))
eqb_ℤ_eq (negsuc a) (negsuc b) h = ap negsuc (ground (arith, h))

module _ {h : Host} (codec : Codec h (Schedule h.Payload)) where
  pub persist-Same : (m : Manager h) (s : Schedule h.Payload) → Same m (persist codec m s)
  unfolding persist
  persist-Same m s = elim (Option-cases m.db) [
    | inl n ↦ rw (n, persist) (record { schedules = refl; runs = refl; counter = refl })
    | inr (d, n) ↦ elim (Option-cases (codec.encode s)) [
      | inl x ↦
          rw (n, persist)
            (rw (x, persist) (record { schedules = refl; runs = refl; counter = refl }))
      | inr (v, x) ↦
          rw (n, persist)
            (rw (x, persist) (record { schedules = refl; runs = refl; counter = refl }))
    ]
  ]

  pub unpersist-Same : (m : Manager h) (s : Schedule h.Payload) → Same m (unpersist codec m s)
  unfolding unpersist
  unpersist-Same m s = elim (Option-cases m.db) [
    | inl n ↦ rw (n, unpersist) (record { schedules = refl; runs = refl; counter = refl })
    | inr (d, n) ↦ rw (n, unpersist) (record { schedules = refl; runs = refl; counter = refl })
  ]

  -- What is left after the goroutine of an entry is stopped.
  pub record Stops (m n : Manager h) (k : String) : Type 0 where
    pub idle : runners_of k n.runs ≡ []
    pub others : (j : String) → (j == k) ≡ false → runners_of j n.runs ≡ runners_of j m.runs
    pub kept : (j : String) → (j == k) ≡ false → lookup j n.schedules ≡ lookup j m.schedules
    pub counter : n.counter ≡ m.counter

  pub stop_locked-Stops :
      (m : Manager h) (k : String) (e : ScheduleEntry h.Payload) (period : Duration)
      → e.sched.id ≡ k
      → runners_of k m.runs ≡ one_runner k period e.cancel
      → Stops m (stop_locked m k e) k
  unfolding stop_locked
  stop_locked-Stops m k e period own now = elim (Option-cases e.cancel) [
    | inl n ↦
        rw (n, stop_locked)
          (record {
            idle = now ∙ ap (one_runner k period) n;
            others = λ j d. refl;
            kept = λ j d. lookup-insert k j e m.schedules ∙ ground (arith, d);
            counter = refl;
          })
    | inr (c, n) ↦
        rw (n, stop_locked)
          (record {
            idle =
                ap (λ i. runners_of k (without i c m.runs)) own
                ∙ without_one k c period m.runs (now ∙ ap (one_runner k period) n);
            others = λ j d. runners_of-without j e.sched.id c m.runs (ap (◌==◌ j) own ∙ d);
            kept = λ j d.
                lookup-insert k j (record e { cancel = none }) m.schedules ∙ ground (arith, d);
            counter = refl;
          })
  ]

  -- To start the goroutine of a schedule again, which may have one now.
  restart-Sets :
      (m : Manager h) (k : String) (e : ScheduleEntry h.Payload) (period : Duration)
      → e.sched.id ≡ k
      → e.sched.active ≡ true
      → runners_of k m.runs ≡ one_runner k period e.cancel
      → Sets m (start_locked (stop_locked m k e) k e) k
  restart-Sets m k e period own a now =
      let s = stop_locked-Stops m k e period own now in
      Sets-before m (stop_locked m k e) (start_locked (stop_locked m k e) k e) k
        (start_locked-Sets (stop_locked m k e) k e own a s.idle) s.counter s.kept s.others

  -- The goroutines of a key are those for an entry with this context and an interval from before.
  pub rearm-Sets :
      (m : Manager h) (k : String) (e : ScheduleEntry h.Payload) (period : Duration)
      (changed : Bool)
      → e.sched.id ≡ k
      → runners_of k m.runs ≡ one_runner k period e.cancel
      → (changed ≡ false → period ≡ e.sched.interval)
      → Sets m (rearm codec m k e (is_armed e.cancel) changed) k
  unfolding rearm
  rearm-Sets m k e period changed own now kept = elim (Option-cases e.cancel) [
    | inl n ↦ elim (Bool-cases e.sched.active) [
      | inl a ↦
          let p : (is_armed e.cancel && not e.sched.active) ≡ false = ground (arith, n, a) in
          let q : (not (is_armed e.cancel) && e.sched.active) ≡ true = ground (arith, n, a) in
          rw (p, rearm)
            (rw (q, rearm) (start_locked-Sets m k e own a (now ∙ ap (one_runner k period) n)))
      | inr a ↦
          let p : (is_armed e.cancel && not e.sched.active) ≡ false = ground (arith, n, a) in
          let q : (not (is_armed e.cancel) && e.sched.active) ≡ false = ground (arith, n, a) in
          let r : (is_armed e.cancel && e.sched.active && changed) ≡ false = ground (arith, n, a) in
          rw (p, rearm)
            (rw (q, rearm)
              (rw (r, rearm)
                (store-Sets m k e (
                  own,
                  now ∙ ap (one_runner k period) n ∙ sym (ap (one_runner k e.sched.interval) n),
                  ap is_armed n ∙ sym a,
                ))))
    ]
    | inr (c, n) ↦ elim (Bool-cases e.sched.active) [
      | inl a ↦
          let p : (is_armed e.cancel && not e.sched.active) ≡ false = ground (arith, n, a) in
          let q : (not (is_armed e.cancel) && e.sched.active) ≡ false = ground (arith, n, a) in
          elim (Bool-cases changed) [
            | inl d ↦
                let r : (is_armed e.cancel && e.sched.active && changed) ≡ true =
                  ground (arith, n, a, d) in
                rw (p, rearm) (rw (q, rearm) (rw (r, rearm) (restart-Sets m k e period own a now)))
            | inr d ↦
                let r : (is_armed e.cancel && e.sched.active && changed) ≡ false =
                  ground (arith, n, a, d) in
                rw (p, rearm)
                  (rw (q, rearm)
                    (rw (r, rearm)
                      (store-Sets m k e (
                        own,
                        now ∙ ap (λ i. one_runner k i e.cancel) (kept d),
                        ap is_armed n ∙ sym a,
                      ))))
          ]
      | inr a ↦
          let p : (is_armed e.cancel && not e.sched.active) ≡ true = ground (arith, n, a) in
          rw (p, rearm) (stop_locked-Sets m k e period own a now)
    ]
  ]

  -- An update keeps the context of the entry and what `rearm` asks for.
  finish_update-Sets :
      (m : Manager h) (k : String) (e : ScheduleEntry h.Payload) (period : Duration)
      (was changed : Bool) (active : Option Bool)
      → e.sched.id ≡ k
      → runners_of k m.runs ≡ one_runner k period e.cancel
      → is_armed e.cancel ≡ was
      → (changed ≡ false → period ≡ e.sched.interval)
      → Sets m (finish_update codec m k e was changed active).0 k
  unfolding finish_update
  finish_update-Sets m k e period was changed active own now armed kept =
      let s : Schedule h.Payload = record e.sched {
        active = or_else codec e.sched.active active;
      } in
      let x : ScheduleEntry h.Payload = record e { sched = s } in
      subst (λ b. Sets m (persist codec (rearm codec m k x b changed) s) k) armed
        (Sets-after m (rearm codec m k x (is_armed e.cancel) changed)
          (persist codec (rearm codec m k x (is_armed e.cancel) changed) s) k
          (rearm-Sets m k x period changed own now kept)
          (persist-Same (rearm codec m k x (is_armed e.cancel) changed) s))

  pub update_interval-Sets :
      (m : Manager h) (k : String) (e : ScheduleEntry h.Payload) (params : UpdateParams h.Payload)
      → Fits k m.runs (some e)
      → Sets m (update_interval codec m k e params).0 k
  unfolding update_interval
  update_interval-Sets m k e params f = elim (Option-cases params.interval) [
    | inl n ↦
        rw (n, update_interval)
          (finish_update-Sets m k e e.sched.interval e.sched.active false params.active f.0 f.1 f.2
            (λ d. refl))
    | inr (d, n) ↦ elim (Bool-cases (ltb_ℤ d min_interval)) [
      | inl t ↦ rw (n, update_interval) (rw (t, update_interval) (store-Sets m k e f))
      | inr t ↦
          rw (n, update_interval)
            (rw (t, update_interval)
              (finish_update-Sets m k (record e { sched = record e.sched { interval = d } })
                e.sched.interval e.sched.active (not (eqb_ℤ e.sched.interval d)) params.active f.0
                f.1 f.2 (λ g. eqb_ℤ_eq e.sched.interval d (ground (arith, g)))))
    ]
  ]
