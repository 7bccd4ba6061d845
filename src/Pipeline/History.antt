-- ===== src/Pipeline/History.antt =====
-- pkg/pipeline/pipeline.go: histories of calls on the manager, and the start of a run after them.
use spectral_cloud.Prelude.{
  String, ◌≡◌, ◌≢◌, refl, Bool, true, false, some, List, [], ◌∷◌, arith, Option-cases, inl, inr,
  get_elem?, ap,
}
use spectral_cloud.Prelude.Clock.{Time}
use spectral_cloud.Prelude.Dict.{lookup-nil}
use spectral_cloud.Persist.{Host, Codec}
use spectral_cloud.Pipeline.Record.{Stage, Pipeline, Run, UpdateParams, validate_stages}
use spectral_cloud.Pipeline.State.{Manager, new_with_store}
use spectral_cloud.Pipeline.{
  StartReply, pipeline_not_found, started, start_panics, create_pipeline, get_pipeline,
  update_pipeline, delete_pipeline, start_run, record_stage_job, advance_run,
}
use spectral_cloud.Pipeline.Stages.{
  Staged, create-Staged, update-Staged, delete-Staged, same-Staged, pipelines-start_run,
  pipelines-record_stage_job, pipelines-advance_run, lookup-get_pipeline,
}

pub data Call (P : Type 0) : Type 0 where
  creates : String → String → List (Stage P) → Call P
  updates : String → String → UpdateParams P → Call P
  deletes : String → String → Call P
  starts : String → String → P → Call P
  records : String → String → String → Call P
  advances : String → String → Bool → Call P

module _ {h : Host} (pc : Codec h (Pipeline h.Payload)) (rc : Codec h (Run h.Payload)) where
  unfoldable pub step : Manager h → Time × Call h.Payload → Manager h
  step m (now, creates t name stages) = (create_pipeline pc rc m t name stages now).0
  step m (now, updates t id params) = (update_pipeline pc rc m t id params).0
  step m (now, deletes t id) = (delete_pipeline pc rc m t id).0
  step m (now, starts t id input) = (start_run pc rc m t id input now).0
  step m (now, records t id job) = (record_stage_job pc rc m t id job now).0
  step m (now, advances t id failed) = (advance_run pc rc m t id failed now).0

  unfoldable pub run : List (Time × Call h.Payload) → Manager h → Manager h
  unfolding step
  run [] m = m
  run (c ∷ cs) m = run cs (step m c)

  step-Staged :
      (m : Manager h) (c : Time × Call h.Payload) → Staged pc rc m → Staged pc rc (step m c)
  unfolding step
  step-Staged m (now, creates t name stages) v = create-Staged pc rc m t name stages now v
  step-Staged m (now, updates t id params) v = update-Staged pc rc m t id params v
  step-Staged m (now, deletes t id) v = delete-Staged pc rc m t id v
  step-Staged m (now, starts t id input) v =
      same-Staged pc rc m _ v (pipelines-start_run pc rc m t id input now)
  step-Staged m (now, records t id job) v =
      same-Staged pc rc m _ v (pipelines-record_stage_job pc rc m t id job now)
  step-Staged m (now, advances t id failed) v =
      same-Staged pc rc m _ v (pipelines-advance_run pc rc m t id failed now)

  run-Staged :
      (cs : List (Time × Call h.Payload)) (m : Manager h) → Staged pc rc m → Staged pc rc (run cs m)
  unfolding run
  run-Staged [] m v = v
  run-Staged (c ∷ cs) m v = run-Staged cs (step m c) (step-Staged m c v)

  start-Staged : (d : h.Db) → Staged pc rc (new_with_store pc rc d)
  unfolding new_with_store
  start-Staged d = record {
    each = λ k p e. absurd (ground (arith, e, lookup-nil {V = Pipeline h.Payload} k));
  }

  first_stage :
      (stages : List (Stage h.Payload))
      → validate_stages stages ≡ true
      → (s : Stage h.Payload) × (get_elem? stages 0 ≡ some s)
  unfolding validate_stages
  first_stage [] e = absurd (ground arith)
  first_stage (s ∷ ss) e = (s, refl)

  abbrev panics : StartReply h.Payload → Bool
  panics pipeline_not_found = false
  panics (started r s) = false
  panics start_panics = true

  starts_well :
      (m : Manager h) (t id : String) (input : h.Payload) (now : Time)
      → Staged pc rc m
      → panics (start_run pc rc m t id input now).1 ≡ false
  unfolding start_run
  starts_well m t id input now v = elim (Option-cases (get_pipeline pc rc m t id)) [
    | inl e ↦ rw (e, start_run) refl
    | inr (p, e) ↦
        let (s, f) = first_stage p.stages (v.each id p (lookup-get_pipeline pc rc m t id p e)) in
        rw (e, start_run) (rw (f, start_run) refl)
  ]

  -- After any history of calls other than `LoadFromStore` on a new manager over a store, the stages
  -- of every pipeline validate, and no `StartRun` panics on a pipeline without stages.
  pub run-Staged_starts :
      (d : h.Db) (cs : List (Time × Call h.Payload)) (t id : String) (input : h.Payload)
      (now : Time)
      → let m = run cs (new_with_store pc rc d) in
        Staged pc rc m × ((start_run pc rc m t id input now).1 ≢ start_panics)
  run-Staged_starts d cs t id input now =
      let v = run-Staged cs _ (start-Staged d) in
      (v, λ bad. absurd (ground (arith, ap panics bad, starts_well _ t id input now v)))
