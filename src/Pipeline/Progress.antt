-- ===== src/Pipeline/Progress.antt =====
-- pkg/pipeline/pipeline.go: a whole run, from StartRun through one AdvanceRun for each stage.
use spectral_cloud.Prelude.{
  ℕ, suc, ◌+◌, ◌%◌, ◌<◌, String, ◌≡◌, refl, false, Option, none, some, List, [], ◌∷◌, ◌++◌,
  drop-cons, drop-nil, arith, length, get_elem?, drop, ap, ◌∙◌, map,
}
use spectral_cloud.Prelude.Int.{pos, half_word, word}
use spectral_cloud.Prelude.Clock.{Time}
use spectral_cloud.Prelude.Dict.{lookup}
use spectral_cloud.Persist.{Host, Codec}
use spectral_cloud.Pipeline.Record.{Stage, Pipeline, Run, run_id_of}
use spectral_cloud.Pipeline.State.{Manager, store_run}
use spectral_cloud.Pipeline.{
  StartReply, started, start_panics, get_pipeline, start_run, advance_run,
}
use spectral_cloud.Pipeline.Advance.{
  Going, handed, goes_on, finishes, lookup-store_run, pipelines-store_run,
}
use spectral_cloud.Pipeline.Stages.{lookup-get_pipeline}

module _ {h : Host} (pc : Codec h (Pipeline h.Payload)) (rc : Codec h (Run h.Payload)) where
  -- One `AdvanceRun` at each of the times; the stages that the replies hand out.
  abbrev pub drive :
      List Time → Manager h → String → String → Manager h × List (Option (Stage h.Payload))
  drive [] m tenant id = (m, [])
  drive (t ∷ ts) m tenant id =
      let (next, reply) = advance_run pc rc m tenant id false t in
      let (last, stages) = drive ts next tenant id in (last, handed pc rc reply ∷ stages)

  abbrev pub Finished : String → Manager h → Type 0
  Finished id m = (r : Run h.Payload) × (lookup id m.runs ≡ some r) × (r.status ≡ "done")

  drive_from :
      (ts : List Time) (rest : List (Stage h.Payload)) (tenant id pid : String)
      (p : Pipeline h.Payload) (m : Manager h) (i : ℕ)
      → Going pc rc tenant id pid p m i
      → drop (i + 1) p.stages ≡ rest
      → length ts ≡ length rest + 1
      → i < length p.stages
      → length p.stages < half_word
      → ((drive ts m tenant id).1 ≡ map some rest ++ (none ∷ []))
        × Finished id (drive ts m tenant id).0
  drive_from [] rest tenant id pid p m i g e l low small = absurd (omega arith)
  drive_from (t ∷ []) [] tenant id pid p m i g e l low small =
      let (out, done) =
        finishes pc rc tenant id pid p m i t g (drop-nil (i + 1) p.stages e) (omega arith) in
      (ap (λ o. o ∷ []) out, done)
  drive_from (t ∷ u ∷ ts) [] tenant id pid p m i g e l low small = absurd (omega arith)
  drive_from (t ∷ ts) (s ∷ rest) tenant id pid p m i g e l low small =
      let (there, later, more) = drop-cons (i + 1) p.stages s rest e in
      let (out, on) = goes_on pc rc tenant id pid p m i t s g there more (omega arith) in
      let (outs, done) =
        drive_from ts rest tenant id pid p _ (i + 1) on
          (ap (λ n. drop n p.stages) {y = suc (i + 1)} (omega arith) ∙ later) (omega arith) more
          small in
      (rw out (ap (λ os. some s ∷ os) outs), done)

  -- A run of a pipeline with `n` stages: `StartRun` returns the first one, and `n` calls of
  -- `AdvanceRun` without a failure return the others in their order and then none, so that each
  -- stage is handed out once. The run is then done.
  pub drive-start_run :
      (m : Manager h) (tenant pid : String) (input : h.Payload) (now : Time) (ts : List Time)
      (p : Pipeline h.Payload) (first : Stage h.Payload) (rest : List (Stage h.Payload))
      → get_pipeline pc rc m tenant pid ≡ some p
      → p.stages ≡ first ∷ rest
      → length ts ≡ length p.stages
      → length p.stages < half_word
      → let (next, reply) = start_run pc rc m tenant pid input now in
        (r : Run h.Payload) × (reply ≡ started r first)
        × ((drive ts next tenant r.id).1 ≡ map some rest ++ (none ∷ []))
        × Finished r.id (drive ts next tenant r.id).0
  unfolding start_run
  drive-start_run m tenant pid input now ts p first rest e plan l small =
      let n = (m.run_counter + 1) % word in
      let r : Run h.Payload = record {
        id = run_id_of n;
        pipeline_id = pid;
        tenant = tenant;
        status = "running";
        current_stage = pos 0;
        job_ids = [];
        input = input;
        created_at = now;
        updated_at = now;
      } in
      let m1 : Manager h = record m { run_counter = n } in
      let next = store_run pc rc m1 r.id r in
      let front : get_elem? p.stages 0 ≡ some first = ap (λ l. get_elem? l 0) plan in
      let begun : start_run pc rc m tenant pid input now ≡ (next, started r first) =
        rw (e, start_run)
          (ap
            (λ o. (
              next,
              elim o as (λ x. StartReply h.Payload) [ none ↦ start_panics | some s ↦ started r s ],
            ))
            front) in
      let g : Going pc rc tenant r.id pid p next 0 = record {
        at = r;
        stored = lookup-store_run pc rc m1 r.id r;
        tenant_of = refl;
        status_of = refl;
        pipeline_of = refl;
        stage_of = refl;
        planned =
            ap (lookup pid) (pipelines-store_run pc rc m1 r.id r)
            ∙ lookup-get_pipeline pc rc m tenant pid p e;
      } in
      let size : length ts ≡ suc (length rest) = l ∙ ap length plan in
      let (outs, done) =
        drive_from ts rest tenant r.id pid p next 0 g (ap (drop 1) plan) (size ∙ omega arith)
          (omega (arith, l, size)) small in
      rw begun (r, refl, outs, done)
