-- ===== src/Pipeline/Record.antt =====
-- pkg/pipeline/pipeline.go: pipelines, runs and their stages.
use Prim.Native.String.{◌++◌ as str_append}
use spectral_cloud.Prelude.{
  ℕ, String, Bool, true, false, Option, none, some, List, [], ◌∷◌, ◌==◌, ◌&&◌, get_elem?,
  if◌then◌else◌,
}
use spectral_cloud.Prelude.Int.{ℤ, pos, negsuc}
use spectral_cloud.Prelude.Clock.{Time, before}
use spectral_cloud.Prelude.Decimal.{show, scan, strip_prefix}

-- The parameter is the type of the JSON objects that payloads and inputs are.
pub record Stage (P : Type 0) : Type 0 where
  pub name : String
  pub agent_id : String
  pub capability : String
  pub payload : P

pub record Pipeline (P : Type 0) : Type 0 where
  pub id : String
  pub tenant : String
  pub name : String
  pub stages : List (Stage P)
  pub created_at : Time

pub record Run (P : Type 0) : Type 0 where
  pub id : String
  pub pipeline_id : String
  pub tenant : String
  pub status : String
  pub current_stage : ℤ
  pub job_ids : List String
  pub input : P
  pub created_at : Time
  pub updated_at : Time

abbrev pub run_status_running : String
run_status_running = "running"

abbrev pub run_status_done : String
run_status_done = "done"

abbrev pub run_status_failed : String
run_status_failed = "failed"

abbrev pub pipeline_key_prefix : String
pipeline_key_prefix = "pipeline_"

abbrev pub run_key_prefix : String
run_key_prefix = "prun_"

-- `stages` is `none` for the nil slice, which leaves the stages unchanged.
pub record UpdateParams (P : Type 0) : Type 0 where
  pub name : Option String
  pub stages : Option (List (Stage P))

unfoldable pub parse_pipeline_num : String → ℕ
unfolding scan strip_prefix
parse_pipeline_num id = elim (strip_prefix "pipe-" id) [ none ↦ 0 | some rest ↦ scan rest ]

unfoldable pub parse_run_num : String → ℕ
unfolding scan strip_prefix
parse_run_num id = elim (strip_prefix "prun-" id) [ none ↦ 0 | some rest ↦ scan rest ]

unfoldable pub pipeline_id_of : ℕ → String
pipeline_id_of n = str_append "pipe-" (show n)

unfoldable pub run_id_of : ℕ → String
run_id_of n = str_append "prun-" (show n)

unfoldable pub all_targeted : {P : Type 0} → List (Stage P) → Bool
all_targeted [] = true
all_targeted (s ∷ ss) =
    let rest = all_targeted ss in if s.agent_id == "" && s.capability == "" then false else rest

-- `validateStages`: true where it returns no error.
unfoldable pub validate_stages : {P : Type 0} → List (Stage P) → Bool
unfolding all_targeted
validate_stages [] = false
validate_stages (s ∷ ss) = all_targeted (s ∷ ss)

-- stages[i], where `none` is the panic of an index out of range
abbrev pub stage_at : {P : Type 0} → List (Stage P) → ℤ → Option (Stage P)
stage_at stages (pos n) = get_elem? stages n
stage_at stages (negsuc n) = none

abbrev pub older : {P : Type 0} → Run P → Run P → Bool
older a b = before a.created_at b.created_at
