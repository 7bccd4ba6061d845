-- ===== src/Pipeline/Examples.antt =====
-- Tests of the pipelines, and their theorems at concrete inputs.
use spectral_cloud.Prelude.{
  String, ◌≡◌, ◌≢◌, ◌⊎◌, refl, true, false, none, some, List, [], ◌∷◌, arith, eq_iff, inl, inr,
  ◌==◌, ◌&&◌, not, select, map,
}
use spectral_cloud.Prelude.Clock.{Time}
use spectral_cloud.Prelude.Dict.{lookup}
use spectral_cloud.Persist.{Host, Codec}
use spectral_cloud.Pipeline.Record.{Stage, Pipeline, Run, validate_stages}
use spectral_cloud.Pipeline.State.{Manager, new_with_store}
use spectral_cloud.Pipeline.{
  started, start_panics, rejected, get_pipeline, update_pipeline, start_run,
}
use spectral_cloud.Pipeline.Progress.{drive, drive-start_run, Finished}
use spectral_cloud.Pipeline.Stages.{Staged, rejected_rename}
use spectral_cloud.Pipeline.History.{
  Call, creates, updates, starts, advances, run, run-Staged_starts,
}

-- A store that keeps its writes in a list, newest first, and JSON that is the value itself.
abbrev memory : Host
memory = record {
  Payload = String;
  Data = Pipeline String ⊎ Run String;
  Db = List (String × String × (Pipeline String ⊎ Run String));
  put = λ t k v d. (t, k, v) ∷ d;
  delete = λ t k d. select (λ e. not (e.0 == t && e.1 == k)) d;
  scan = λ t p d. some (map (λ e. e.2) (select (λ e. e.0 == t) d));
}

abbrev pipelines_as : Codec memory (Pipeline String)
pipelines_as = record {
  encode = λ p. some (inl p);
  decode = λ v. elim v [ inl p ↦ some p | inr r ↦ none ];
}

abbrev runs_as : Codec memory (Run String)
runs_as = record {
  encode = λ r. some (inr r);
  decode = λ v. elim v [ inl p ↦ none | inr r ↦ some r ];
}

abbrev ocr : Stage String
ocr = record { name = "read"; agent_id = ""; capability = "ocr"; payload = "" }

abbrev mail : Stage String
mail = record { name = "send"; agent_id = "a1"; capability = ""; payload = "" }

abbrev scan_mail : Pipeline String
scan_mail = record {
  id = "pipe-1";
  tenant = "t";
  name = "scan";
  stages = ocr ∷ mail ∷ [];
  created_at = 5;
}

abbrev one : Manager memory
one = record {
  pipelines = ("pipe-1", scan_mail) ∷ [];
  runs = [];
  pipeline_counter = 1;
  run_counter = 0;
  db = none;
}

one_holds : get_pipeline pipelines_as runs_as one "t" "pipe-1" ≡ some scan_mail
unfolding get_pipeline lookup
one_holds = refl

drive-start_run_example :
    let (next, reply) = start_run pipelines_as runs_as one "t" "pipe-1" "in" 10 in
    (r : Run String) × (reply ≡ started r ocr)
    × ((drive pipelines_as runs_as (11 ∷ 12 ∷ []) next "t" r.id).1 ≡ some mail ∷ none ∷ [])
    × Finished pipelines_as runs_as r.id (drive pipelines_as runs_as (11 ∷ 12 ∷ []) next "t" r.id).0
drive-start_run_example =
    drive-start_run pipelines_as runs_as one "t" "pipe-1" "in" 10 (11 ∷ 12 ∷ []) scan_mail ocr
      (mail ∷ []) one_holds refl refl (omega arith)

abbrev history : List (Time × Call String)
history =
    (5, creates "t" "scan" (ocr ∷ mail ∷ []))
    ∷ (6, updates "t" "pipe-1" (record { name = none; stages = some [] }))
    ∷ (7, starts "t" "pipe-1" "in")
    ∷ (8, advances "t" "prun-1" true)
    ∷ []

run-Staged_starts_example :
    let m = run pipelines_as runs_as history (new_with_store pipelines_as runs_as []) in
    Staged pipelines_as runs_as m
    × ((start_run pipelines_as runs_as m "t" "pipe-1" "in" 9).1 ≢ start_panics)
run-Staged_starts_example = run-Staged_starts pipelines_as runs_as [] history "t" "pipe-1" "in" 9

no_stages : validate_stages {P = String} [] ≡ false
unfolding validate_stages
no_stages = refl

rejected_rename_example :
    let (n, reply) =
      update_pipeline pipelines_as runs_as one "t" "pipe-1"
        (record { name = some "other"; stages = some [] }) in
    (reply ≡ rejected)
    × (get_pipeline pipelines_as runs_as n "t" "pipe-1"
        ≡ some (record scan_mail { name = "other" }))
rejected_rename_example =
    rejected_rename pipelines_as runs_as one "t" "pipe-1" "other" [] scan_mail one_holds refl
      (ground (arith, eq_iff "other" "")) no_stages
