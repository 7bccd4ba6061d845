-- ===== src/Pipeline/Stages.antt =====
-- pkg/pipeline/pipeline.go: what each operation does to the stages of the stored pipelines.
use spectral_cloud.Prelude.{
  String, ◌≡◌, ◌≢◌, refl, Bool, true, false, Option, none, some, List, arith, eq_iff, eq_refl,
  Option-cases, Bool-cases, inl, inr, ap, ◌∙◌, sym, ◌==◌,
}
use spectral_cloud.Prelude.Clock.{Time}
use spectral_cloud.Prelude.Dict.{lookup, insert, remove, lookup-insert, lookup-remove}
use spectral_cloud.Persist.{Host, Codec}
use spectral_cloud.Pipeline.Record.{Stage, Pipeline, Run, UpdateParams, validate_stages}
use spectral_cloud.Pipeline.State.{Manager, persist_pipeline, unpersist_pipeline, store_pipeline}
use spectral_cloud.Pipeline.{
  rejected, create_pipeline, get_pipeline, update_stages, update_pipeline, delete_pipeline,
  start_run, get_run, record_stage_job, advance_run,
}
use spectral_cloud.Pipeline.Advance.{pipelines-store_run}

module _ {h : Host} (pc : Codec h (Pipeline h.Payload)) (rc : Codec h (Run h.Payload)) where
  pub record Staged (m : Manager h) : Type 0 where
    pub each :
        (k : String) (p : Pipeline h.Payload)
        → lookup k m.pipelines ≡ some p
        → validate_stages p.stages ≡ true

  pipelines-store_pipeline :
      (m : Manager h) (id : String) (p : Pipeline h.Payload)
      → (store_pipeline pc rc m id p).pipelines ≡ insert id p m.pipelines
  unfolding store_pipeline persist_pipeline
  pipelines-store_pipeline m id p = ground arith

  pipelines-unpersist_pipeline :
      (m : Manager h) (p : Pipeline h.Payload)
      → (unpersist_pipeline pc rc m p).pipelines ≡ m.pipelines
  unfolding unpersist_pipeline
  pipelines-unpersist_pipeline m p = ground arith

  pub same-Staged : (m n : Manager h) → Staged m → n.pipelines ≡ m.pipelines → Staged n
  same-Staged m n v e = record { each = λ k p l. v.each k p (sym (ap (lookup k) e) ∙ l) }

  insert-Staged :
      (m n : Manager h) (id : String) (p : Pipeline h.Payload)
      → Staged m
      → validate_stages p.stages ≡ true
      → n.pipelines ≡ insert id p m.pipelines
      → Staged n
  insert-Staged m n id p v ok e = record {
    each = λ k x l.
        ground (arith, l, ap (lookup k) e, lookup-insert id k p m.pipelines, v.each k x, ok);
  }

  remove-Staged :
      (m n : Manager h) (id : String) → Staged m → n.pipelines ≡ remove id m.pipelines → Staged n
  remove-Staged m n id v e = record {
    each = λ k x l. ground (arith, l, ap (lookup k) e, lookup-remove id k m.pipelines, v.each k x);
  }

  pub lookup-get_pipeline :
      (m : Manager h) (tenant pid : String) (p : Pipeline h.Payload)
      → get_pipeline pc rc m tenant pid ≡ some p
      → lookup pid m.pipelines ≡ some p
  unfolding get_pipeline
  lookup-get_pipeline m tenant pid p e = ground arith

  stored_pipeline :
      (m : Manager h) (id t : String) (p : Pipeline h.Payload)
      → p.tenant ≡ t
      → get_pipeline pc rc (record m { pipelines = insert id p m.pipelines }) t id ≡ some p
  unfolding get_pipeline
  stored_pipeline m id t p own =
      ground (arith, lookup-insert id id p m.pipelines, eq_refl id, eq_refl t, own)

  pub create-Staged :
      (m : Manager h) (t name : String) (stages : List (Stage h.Payload)) (now : Time)
      → Staged m
      → Staged (create_pipeline pc rc m t name stages now).0
  unfolding create_pipeline
  create-Staged m t name stages now v = elim (Bool-cases (name == "")) [
    | inl e ↦ rw (e, create_pipeline) v
    | inr e ↦ elim (Bool-cases (validate_stages stages)) [
      | inr f ↦ rw (e, create_pipeline) (rw (f, create_pipeline) v)
      | inl f ↦
          rw (e, create_pipeline)
            (rw (f, create_pipeline) (insert-Staged m _ _ _ v f (pipelines-store_pipeline _ _ _)))
    ]
  ]

  update_stages-Staged :
      (m : Manager h) (id : String) (p : Pipeline h.Payload) (o : Option (List (Stage h.Payload)))
      → Staged m
      → validate_stages p.stages ≡ true
      → Staged (update_stages pc rc m id p o).0
  unfolding update_stages
  update_stages-Staged m id p none v ok =
      insert-Staged m _ id p v ok (pipelines-store_pipeline m id p)
  update_stages-Staged m id p (some stages) v ok = elim (Bool-cases (validate_stages stages)) [
    | inr f ↦ rw (f, update_stages) (insert-Staged m _ id p v ok refl)
    | inl f ↦ rw (f, update_stages) (insert-Staged m _ id _ v f (pipelines-store_pipeline m id _))
  ]

  pub update-Staged :
      (m : Manager h) (t id : String) (params : UpdateParams h.Payload)
      → Staged m
      → Staged (update_pipeline pc rc m t id params).0
  unfolding update_pipeline
  update-Staged m t id params v = elim (Option-cases (get_pipeline pc rc m t id)) [
    | inl e ↦ rw (e, update_pipeline) v
    | inr (p, e) ↦
        let ok = v.each id p (lookup-get_pipeline m t id p e) in
        elim (Option-cases params.name) [
          | inl f ↦
              rw (e, update_pipeline)
                (rw (f, update_pipeline) (update_stages-Staged m id p params.stages v ok))
          | inr (name, f) ↦ elim (Bool-cases (name == "")) [
            | inl g ↦ rw (e, update_pipeline) (rw (f, update_pipeline) (rw (g, update_pipeline) v))
            | inr g ↦
                rw (e, update_pipeline)
                  (rw (f, update_pipeline)
                    (rw (g, update_pipeline)
                      (update_stages-Staged m id (record p { name = name }) params.stages v ok)))
          ]
        ]
  ]

  pub delete-Staged :
      (m : Manager h) (t id : String) → Staged m → Staged (delete_pipeline pc rc m t id).0
  unfolding delete_pipeline
  delete-Staged m t id v = elim (Option-cases (get_pipeline pc rc m t id)) [
    | inl e ↦ rw (e, delete_pipeline) v
    | inr (p, e) ↦
        rw (e, delete_pipeline)
          (remove-Staged m _ id v (ap (remove id) (pipelines-unpersist_pipeline m p)))
  ]

  pub pipelines-start_run :
      (m : Manager h) (t id : String) (input : h.Payload) (now : Time)
      → (start_run pc rc m t id input now).0.pipelines ≡ m.pipelines
  unfolding start_run
  pipelines-start_run m t id input now = elim (Option-cases (get_pipeline pc rc m t id)) [
    | inl e ↦ rw (e, start_run) refl
    | inr (p, e) ↦ rw (e, start_run) (pipelines-store_run pc rc _ _ _)
  ]

  pub pipelines-record_stage_job :
      (m : Manager h) (t id job : String) (now : Time)
      → (record_stage_job pc rc m t id job now).0.pipelines ≡ m.pipelines
  unfolding record_stage_job
  pipelines-record_stage_job m t id job now = elim (Option-cases (get_run pc rc m t id)) [
    | inl e ↦ rw (e, record_stage_job) refl
    | inr (r, e) ↦ rw (e, record_stage_job) (pipelines-store_run pc rc m id _)
  ]

  pub pipelines-advance_run :
      (m : Manager h) (t id : String) (failed : Bool) (now : Time)
      → (advance_run pc rc m t id failed now).0.pipelines ≡ m.pipelines
  unfolding advance_run
  pipelines-advance_run m t id failed now = elim (Option-cases (get_run pc rc m t id)) [
    | inl e ↦ rw (e, advance_run) refl
    | inr (r, e) ↦ elim (Bool-cases (r.status == "running")) [
      | inr f ↦ rw (e, advance_run) (rw (f, advance_run) refl)
      | inl f ↦ elim (Option-cases (lookup r.pipeline_id m.pipelines)) [
        | inl g ↦ rw (e, advance_run) (rw (f, advance_run) (rw (g, advance_run) refl))
        | inr (p, g) ↦
            rw (e, advance_run)
              (rw (f, advance_run) (rw (g, advance_run) (pipelines-store_run pc rc m id _)))
      ]
    ]
  ]

  -- An update with a new name and stages that do not validate is rejected, and yet the pipeline has
  -- the new name afterwards, with its old stages.
  pub rejected_rename :
      (m : Manager h) (t id name : String) (stages : List (Stage h.Payload))
      (p : Pipeline h.Payload)
      → get_pipeline pc rc m t id ≡ some p
      → p.tenant ≡ t
      → name ≢ ""
      → validate_stages stages ≡ false
      → let (n, reply) =
          update_pipeline pc rc m t id (record { name = some name; stages = some stages }) in
        (reply ≡ rejected) × (get_pipeline pc rc n t id ≡ some (record p { name = name }))
  unfolding update_pipeline update_stages
  rejected_rename m t id name stages p e own ne bad =
      let g : name == "" ≡ false = ground (arith, eq_iff name "") in
      rw (e, update_pipeline)
        (rw (g, update_pipeline) (rw (bad, update_stages) (refl, stored_pipeline m id t _ own)))
