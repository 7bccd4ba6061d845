-- ===== src/Scheduler/Standing.antt =====
-- pkg/scheduler/scheduler.go: what each call keeps of the goroutines and of the identifiers.
use mathlib.Core.Path.{subst}
use spectral_cloud.Prelude.{
  ℕ, ◌+◌, ◌%◌, ◌<◌, String, ◌≡◌, refl, false, none, some, arith, eq_iff, Option-cases, Bool-cases,
  inl, inr, ap, ◌∙◌, sym, ◌==◌, ◌&&◌, not,
}
use spectral_cloud.Prelude.Int.{word}
use spectral_cloud.Prelude.Clock.{Time}
use spectral_cloud.Prelude.Dict.{lookup, insert, remove, lookup-remove}
use spectral_cloud.Prelude.Decimal.{show, scan-show, strip_prefix-append}
use spectral_cloud.Persist.{Host, Codec}
use spectral_cloud.Scheduler.Record.{
  Schedule, ScheduleEntry, UpdateParams, parse_sched_num, sched_id,
}
use spectral_cloud.Scheduler.State.{Manager, stop_locked, persist, unpersist}
use spectral_cloud.Scheduler.{record_run, relabelled, is_empty_name, update, delete}
use spectral_cloud.Scheduler.Runners.{runners_of, Fits, Sets, Sets-Fits, Sets-after, store-Sets}
use spectral_cloud.Scheduler.Runners.{Fits-same}
use spectral_cloud.Scheduler.Arming.{
  stop_locked-Stops, persist-Same, unpersist-Same, update_interval-Sets,
}

-- Every schedule has the goroutines that it should have, and the next identifiers are free.
pub record IsStanding {h : Host} (m : Manager h) : Type 0 where
  pub each : (j : String) → Fits j m.runs (lookup j m.schedules)
  pub free : (n : ℕ) → m.counter < n → n < word → lookup (sched_id n) m.schedules ≡ none

parse_sched_num-sched_id : (n : ℕ) → n < word → parse_sched_num (sched_id n) ≡ n
unfolding parse_sched_num sched_id
parse_sched_num-sched_id n h = ground (arith, strip_prefix-append "sched-" (show n), scan-show n h)

pub sched_id_ne : (n k : ℕ) → n < word → k < word → n < k → (sched_id k == sched_id n) ≡ false
sched_id_ne n k a b less = elim (Bool-cases (sched_id k == sched_id n)) [
  | inl e ↦
      let same : sched_id k ≡ sched_id n = ground (arith, eq_iff (sched_id k) (sched_id n), e) in
      let numbers : k ≡ n =
        sym (parse_sched_num-sched_id k b)
        ∙ ap parse_sched_num same
        ∙ parse_sched_num-sched_id n a in
      absurd (omega (arith, numbers, less))
  | inr e ↦ e
]

module _ {h : Host} (codec : Codec h (Schedule h.Payload)) where
  IsStanding-Sets :
      (m n : Manager h) (k : String) (e : ScheduleEntry h.Payload)
      → IsStanding m
      → lookup k m.schedules ≡ some e
      → Sets m n k
      → IsStanding n
  IsStanding-Sets m n k e v l s = record {
    each = Sets-Fits m n k s v.each;
    free = λ i more room.
        let none_yet = v.free i (ground (arith, s.counter, more)) room in
        s.stored (sched_id i) ∙ ground (arith, none_yet, l, eq_iff (sched_id i) k);
  }

  pub update-IsStanding :
      (m : Manager h) (tenant id : String) (params : UpdateParams h.Payload)
      → IsStanding m
      → IsStanding (update codec m tenant id params).0
        × ((update codec m tenant id params).0.counter ≡ m.counter)
  unfolding update
  update-IsStanding m tenant id params v = elim (Option-cases (lookup id m.schedules)) [
    | inl n ↦ rw (n, update) (v, refl)
    | inr (e, n) ↦ elim (Bool-cases (not (tenant == "") && not (e.sched.tenant == tenant))) [
      | inl t ↦ rw (n, update) (rw (t, update) (v, refl))
      | inr t ↦ elim (Bool-cases (is_empty_name codec params.name)) [
        | inl x ↦ rw (n, update) (rw (t, update) (rw (x, update) (v, refl)))
        | inr x ↦
            let s =
              update_interval-Sets codec m id (record e { sched = relabelled codec params e.sched })
                params (subst (Fits id m.runs) n (v.each id)) in
            rw (n, update)
              (rw (t, update) (rw (x, update) (IsStanding-Sets m _ id e v n s, s.counter)))
      ]
    ]
  ]

  pub record_run-IsStanding :
      (m : Manager h) (id : String) (now : Time)
      → IsStanding m
      → IsStanding (record_run codec m id now) × ((record_run codec m id now).counter ≡ m.counter)
  unfolding record_run
  record_run-IsStanding m id now v = elim (Option-cases (lookup id m.schedules)) [
    | inl n ↦ rw (n, record_run) (v, refl)
    | inr (e, n) ↦
        let s : Schedule h.Payload = record e.sched {
          last_run = some now;
          run_count = (e.sched.run_count + 1) % word;
        } in
        let x : ScheduleEntry h.Payload = record e { sched = s } in
        let m1 : Manager h = record m { schedules = insert id x m.schedules } in
        let changed : Sets m (persist codec m1 s) id =
          Sets-after m m1 (persist codec m1 s) id
            (store-Sets m id x (subst (Fits id m.runs) n (v.each id))) (persist-Same codec m1 s) in
        rw (n, record_run)
          (IsStanding-Sets m (persist codec m1 s) id e v n changed, changed.counter)
  ]

  removed-IsStanding :
      (m : Manager h) (id : String) (e : ScheduleEntry h.Payload)
      → lookup id m.schedules ≡ some e
      → IsStanding m
      → (let n = unpersist codec (stop_locked m id e) e.sched in
          IsStanding (record n { schedules = remove id n.schedules }) × (n.counter ≡ m.counter))
  removed-IsStanding m id e l v =
      let n = unpersist codec (stop_locked m id e) e.sched in
      let fit : Fits id m.runs (some e) = subst (Fits id m.runs) l (v.each id) in
      let s = stop_locked-Stops codec m id e e.sched.interval fit.0 fit.1 in
      let same = unpersist-Same codec (stop_locked m id e) e.sched in
      (
        record {
          each = λ j. elim (Bool-cases (j == id)) [
            | inl d ↦
                let key : j ≡ id = ground (arith, eq_iff j id, d) in
                let gone : lookup j (remove id n.schedules) ≡ none =
                  lookup-remove id j n.schedules ∙ ground (arith, d) in
                subst (Fits j n.runs) (sym gone) (
                  ap (runners_of j) same.runs
                  ∙ ap (λ k. runners_of k (stop_locked m id e).runs) key
                  ∙ s.idle)
            | inr d ↦
                let kept : lookup j (remove id n.schedules) ≡ lookup j m.schedules =
                  lookup-remove id j n.schedules
                  ∙ ground (arith, d)
                  ∙ ap (lookup j) same.schedules
                  ∙ s.kept j d in
                subst (Fits j n.runs) (sym kept) (
                  Fits-same j m.runs n.runs (lookup j m.schedules)
                    (ap (runners_of j) same.runs ∙ s.others j d) (v.each j))
          ];
          free = λ i more low.
              let none_yet = v.free i (ground (arith, same.counter, s.counter, more)) low in
              lookup-remove id (sched_id i) n.schedules ∙ elim (Bool-cases (sched_id i == id)) [
                | inl d ↦ ground (arith, d)
                | inr d ↦ ground (arith, d, same.schedules, s.kept (sched_id i) d, none_yet)
              ];
        },
        same.counter ∙ s.counter,
      )

  pub delete-IsStanding :
      (m : Manager h) (id : String)
      → IsStanding m
      → IsStanding (delete codec m id).0 × ((delete codec m id).0.counter ≡ m.counter)
  unfolding delete
  delete-IsStanding m id v = elim (Option-cases (lookup id m.schedules)) [
    | inl n ↦ rw (n, delete) (v, refl)
    | inr (e, n) ↦ rw (n, delete) (removed-IsStanding m id e n v)
  ]
