-- ===== src/Pipeline/State.antt =====
-- pkg/pipeline/pipeline.go: the state of the manager and its persistence.
use Prim.Native.String.{◌++◌ as str_append}
use spectral_cloud.Prelude.{
  ℕ, String, Option, none, some, List, [], ◌∷◌, ltb, if◌then◌else◌, length,
}
use spectral_cloud.Prelude.Dict.{Dict, insert}
use spectral_cloud.Persist.{Host, Codec}
use spectral_cloud.Pipeline.Record.{
  Pipeline, Run, pipeline_key_prefix, run_key_prefix, parse_pipeline_num, parse_run_num,
}

-- `db` is `none` for a manager without a store.
pub record Manager (h : Host) : Type 0 where
  pub pipelines : Dict (Pipeline h.Payload)
  pub runs : Dict (Run h.Payload)
  pub pipeline_counter : ℕ
  pub run_counter : ℕ
  pub db : Option h.Db

module _ {h : Host} (pc : Codec h (Pipeline h.Payload)) (rc : Codec h (Run h.Payload)) where
  unfoldable pub new : Manager h
  new = record { pipelines = []; runs = []; pipeline_counter = 0; run_counter = 0; db = none }

  unfoldable pub new_with_store : h.Db → Manager h
  new_with_store d = record {
    pipelines = [];
    runs = [];
    pipeline_counter = 0;
    run_counter = 0;
    db = some d;
  }

  unfoldable pub persist_pipeline : Manager h → Pipeline h.Payload → Manager h
  persist_pipeline m p = elim m.db [
    | none ↦ m
    | some d ↦ elim (pc.encode p) [
      | none ↦ m
      | some v ↦ record m { db = some (h.put p.tenant (str_append pipeline_key_prefix p.id) v d) }
    ]
  ]

  unfoldable pub unpersist_pipeline : Manager h → Pipeline h.Payload → Manager h
  unpersist_pipeline m p = elim m.db [
    | none ↦ m
    | some d ↦ record m { db = some (h.delete p.tenant (str_append pipeline_key_prefix p.id) d) }
  ]

  unfoldable pub persist_run : Manager h → Run h.Payload → Manager h
  persist_run m r = elim m.db [
    | none ↦ m
    | some d ↦ elim (rc.encode r) [
      | none ↦ m
      | some v ↦ record m { db = some (h.put r.tenant (str_append run_key_prefix r.id) v d) }
    ]
  ]

  unfoldable pub store_run : Manager h → String → Run h.Payload → Manager h
  unfolding persist_run
  store_run m id r = persist_run (record m { runs = insert id r m.runs }) r

  unfoldable pub store_pipeline : Manager h → String → Pipeline h.Payload → Manager h
  unfolding persist_pipeline
  store_pipeline m id p = persist_pipeline (record m { pipelines = insert id p m.pipelines }) p

  unfoldable pub decode_pipelines : List h.Data → List (Pipeline h.Payload)
  decode_pipelines [] = []
  decode_pipelines (v ∷ vs) =
      let rest = decode_pipelines vs in elim (pc.decode v) [ none ↦ rest | some p ↦ p ∷ rest ]

  unfoldable pub decode_runs : List h.Data → List (Run h.Payload)
  decode_runs [] = []
  decode_runs (v ∷ vs) =
      let rest = decode_runs vs in elim (rc.decode v) [ none ↦ rest | some r ↦ r ∷ rest ]

  unfoldable pub restore_pipelines : List (Pipeline h.Payload) → Manager h → Manager h
  unfolding parse_pipeline_num
  restore_pipelines [] m = m
  restore_pipelines (p ∷ ps) m =
      let n = parse_pipeline_num p.id in
      restore_pipelines ps (record m {
        pipelines = insert p.id p m.pipelines;
        pipeline_counter = if ltb m.pipeline_counter n then n else m.pipeline_counter;
      })

  unfoldable pub restore_runs : List (Run h.Payload) → Manager h → Manager h
  unfolding parse_run_num
  restore_runs [] m = m
  restore_runs (r ∷ rs) m =
      let n = parse_run_num r.id in
      restore_runs rs (record m {
        runs = insert r.id r m.runs;
        run_counter = if ltb m.run_counter n then n else m.run_counter;
      })

  -- The numbers of pipelines and runs loaded; `none` is the error of a scan.
  unfoldable pub load_from_store : Manager h → String → Manager h × Option (ℕ × ℕ)
  unfolding decode_pipelines decode_runs restore_pipelines restore_runs
  load_from_store m tenant = elim m.db [
    | none ↦ (m, some (0, 0))
    | some d ↦ elim (h.scan tenant pipeline_key_prefix d) [
      | none ↦ (m, none)
      | some vs ↦ elim (h.scan tenant run_key_prefix d) [
        | none ↦ (m, none)
        | some ws ↦
            let ps = decode_pipelines vs in
            let rs = decode_runs ws in
            (restore_runs rs (restore_pipelines ps m), some (length ps, length rs))
      ]
    ]
  ]
