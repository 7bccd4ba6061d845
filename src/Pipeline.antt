-- ===== src/Pipeline.antt =====
-- pkg/pipeline/pipeline.go: the pipelines and their runs. The time of a call is an argument.
pub mod Record
pub mod State
pub mod Advance
pub mod Progress
pub mod Stages
pub mod History
pub mod Examples
use Prim.Native.String.{◌++◌ as str_append}
use spectral_cloud.Prelude.{
  ℕ, suc, ◌+◌, ◌%◌, String, Bool, true, false, not, Option, none, some, List, [], ◌∷◌, ◌++◌, ◌==◌,
  ◌&&◌, ◌||◌, ltb, if◌then◌else◌, length, select,
}
use spectral_cloud.Prelude.Int.{ℤ, pos, word, incr, leb_ℤ}
use spectral_cloud.Prelude.Clock.{Time}
use spectral_cloud.Prelude.Dict.{Dict, lookup, insert, remove, values}
use spectral_cloud.Prelude.Sort.{sort_by}
use spectral_cloud.Prelude.Bytes.{text_less}
use spectral_cloud.Persist.{Host, Codec}
use Record.{
  Stage, Pipeline, Run, UpdateParams, run_status_running, run_status_done, run_status_failed,
  pipeline_key_prefix, run_key_prefix, parse_pipeline_num, parse_run_num, pipeline_id_of, run_id_of,
  validate_stages, stage_at, older,
}
use State.{
  Manager, new, new_with_store, persist_pipeline, unpersist_pipeline, persist_run, store_run,
  store_pipeline, load_from_store,
}

pub data StartReply (P : Type 0) : Type 0 where
  pipeline_not_found : StartReply P
  started : Run P → Stage P → StartReply P
  start_panics : StartReply P

pub data AdvanceReply (P : Type 0) : Type 0 where
  run_not_found : AdvanceReply P
  not_running : String → AdvanceReply P
  pipeline_gone : AdvanceReply P
  finished : Run P → AdvanceReply P
  next_stage : Run P → Stage P → AdvanceReply P
  advance_panics : AdvanceReply P

pub data UpdateReply (P : Type 0) : Type 0 where
  not_found : UpdateReply P
  rejected : UpdateReply P
  updated : Pipeline P → UpdateReply P

module _ {h : Host} (pc : Codec h (Pipeline h.Payload)) (rc : Codec h (Run h.Payload)) where
  -- `none` is an error: no name, or stages that do not validate.
  unfoldable pub create_pipeline :
      Manager h
      → String
      → String
      → List (Stage h.Payload)
      → Time
      → Manager h × Option (Pipeline h.Payload)
  unfolding validate_stages store_pipeline pipeline_id_of
  create_pipeline m tenant name stages now =
      if name == ""
      then (m, none)
      else if not (validate_stages stages)
      then (m, none)
      else (let n = (m.pipeline_counter + 1) % word in
          let p : Pipeline h.Payload = record {
            id = pipeline_id_of n;
            tenant = tenant;
            name = name;
            stages = stages;
            created_at = now;
          } in
          (store_pipeline pc rc (record m { pipeline_counter = n }) (pipeline_id_of n) p, some p))

  unfoldable pub get_pipeline : Manager h → String → String → Option (Pipeline h.Payload)
  get_pipeline m tenant id = elim (lookup id m.pipelines) [
    | none ↦ none
    | some p ↦ if p.tenant == tenant then some p else none
  ]

  unfoldable pub list_pipelines : Manager h → String → List (Pipeline h.Payload)
  unfolding sort_by
  list_pipelines m tenant =
      sort_by (λ a b. text_less a.name b.name)
        (select (λ p. tenant == "" || p.tenant == tenant) (values m.pipelines))

  -- The second half of `UpdatePipeline`, on the pipeline after its name is set: the pipeline object
  -- is changed in place before the stages are checked.
  unfoldable pub update_stages :
      Manager h
      → String
      → Pipeline h.Payload
      → Option (List (Stage h.Payload))
      → Manager h × UpdateReply h.Payload
  unfolding validate_stages store_pipeline
  update_stages m id p none = (store_pipeline pc rc m id p, updated p)
  update_stages m id p (some stages) =
      if not (validate_stages stages)
      then (record m { pipelines = insert id p m.pipelines }, rejected)
      else (let s = record p { stages = stages } in (store_pipeline pc rc m id s, updated s))

  unfoldable pub update_pipeline :
      Manager h → String → String → UpdateParams h.Payload → Manager h × UpdateReply h.Payload
  unfolding get_pipeline update_stages
  update_pipeline m tenant id params = elim (get_pipeline m tenant id) [
    | none ↦ (m, not_found)
    | some p ↦ elim params.name [
      | none ↦ update_stages m id p params.stages
      | some name ↦
          if name == ""
          then (m, rejected)
          else update_stages m id (record p { name = name }) params.stages
    ]
  ]

  unfoldable pub delete_pipeline : Manager h → String → String → Manager h × Bool
  unfolding get_pipeline unpersist_pipeline
  delete_pipeline m tenant id = elim (get_pipeline m tenant id) [
    | none ↦ (m, false)
    | some p ↦
        let u = unpersist_pipeline pc rc m p in
        (record u { pipelines = remove id u.pipelines }, true)
  ]

  unfoldable pub start_run :
      Manager h → String → String → h.Payload → Time → Manager h × StartReply h.Payload
  unfolding get_pipeline store_run run_id_of
  start_run m tenant pipeline_id input now = elim (get_pipeline m tenant pipeline_id) [
    | none ↦ (m, pipeline_not_found)
    | some p ↦
        let n = (m.run_counter + 1) % word in
        let r : Run h.Payload = record {
          id = run_id_of n;
          pipeline_id = pipeline_id;
          tenant = tenant;
          status = run_status_running;
          current_stage = pos 0;
          job_ids = [];
          input = input;
          created_at = now;
          updated_at = now;
        } in
        (
          store_run pc rc (record m { run_counter = n }) (run_id_of n) r,
          elim (stage_at p.stages (pos 0)) [ none ↦ start_panics | some s ↦ started r s ],
        )
  ]

  unfoldable pub get_run : Manager h → String → String → Option (Run h.Payload)
  get_run m tenant id = elim (lookup id m.runs) [
    | none ↦ none
    | some r ↦ if r.tenant == tenant then some r else none
  ]

  unfoldable pub record_stage_job :
      Manager h → String → String → String → Time → Manager h × Option (Run h.Payload)
  unfolding get_run store_run
  record_stage_job m tenant run_id job_id now = elim (get_run m tenant run_id) [
    | none ↦ (m, none)
    | some r ↦
        let s = record r { job_ids = r.job_ids ++ (job_id ∷ []); updated_at = now } in
        (store_run pc rc m run_id s, some s)
  ]

  -- What `AdvanceRun` makes of a running run whose pipeline has the given stages.
  unfoldable pub advanced : List (Stage h.Payload) → Run h.Payload → Bool → Time → Run h.Payload
  advanced stages r failed now =
      if failed
      then record r { status = run_status_failed; updated_at = now }
      else if leb_ℤ (pos (length stages)) (incr r.current_stage)
      then record r { status = run_status_done; updated_at = now }
      else record r { current_stage = incr r.current_stage; updated_at = now }

  unfoldable pub advance_run :
      Manager h → String → String → Bool → Time → Manager h × AdvanceReply h.Payload
  unfolding get_run store_run advanced
  advance_run m tenant run_id failed now = elim (get_run m tenant run_id) [
    | none ↦ (m, run_not_found)
    | some r ↦
        if not (r.status == run_status_running)
        then (m, not_running r.status)
        else elim (lookup r.pipeline_id m.pipelines) [
          | none ↦ (m, pipeline_gone)
          | some p ↦
              let s = advanced p.stages r failed now in
              (
                store_run pc rc m run_id s,
                if not (s.status == run_status_running)
                    then finished s
                    else elim (stage_at p.stages s.current_stage) [
                      | none ↦ advance_panics
                      | some stage ↦ next_stage s stage
                    ],
              )
        ]
  ]

  unfoldable pub list_runs : Manager h → String → String → List (Run h.Payload)
  unfolding sort_by
  list_runs m tenant pipeline_id = sort_by older (
      select (λ r. r.tenant == tenant && (pipeline_id == "" || r.pipeline_id == pipeline_id))
        (values m.runs))
