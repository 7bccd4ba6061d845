-- ===== src/Pipeline/Advance.antt =====
-- pkg/pipeline/pipeline.go: one advance of a run, to the next stage or to the end.
use spectral_cloud.Prelude.{
  ℕ, ◌+◌, ◌<◌, ◌≤◌, String, ◌≡◌, refl, true, false, Option, none, some, List, arith, eq_refl,
  if◌then◌else◌, length, get_elem?, ap, ◌∙◌, ◌==◌, not,
}
use spectral_cloud.Prelude.Int.{incr, incr_in_range, pos, half_word}
use spectral_cloud.Prelude.Clock.{Time}
use spectral_cloud.Prelude.Dict.{lookup, insert, lookup-insert}
use spectral_cloud.Persist.{Host, Codec}
use spectral_cloud.Pipeline.Record.{Stage, Pipeline, Run, stage_at}
use spectral_cloud.Pipeline.State.{Manager, persist_run, store_run}
use spectral_cloud.Pipeline.{
  AdvanceReply, run_not_found, not_running, pipeline_gone, finished, next_stage, advance_panics,
  advanced, advance_run,
}

module _ {h : Host} (pc : Codec h (Pipeline h.Payload)) (rc : Codec h (Run h.Payload)) where
  pub runs-store_run :
      (m : Manager h) (id : String) (r : Run h.Payload)
      → (store_run pc rc m id r).runs ≡ insert id r m.runs
  unfolding store_run persist_run
  runs-store_run m id r = ground arith

  pub pipelines-store_run :
      (m : Manager h) (id : String) (r : Run h.Payload)
      → (store_run pc rc m id r).pipelines ≡ m.pipelines
  unfolding store_run persist_run
  pipelines-store_run m id r = ground arith

  pub lookup-store_run :
      (m : Manager h) (id : String) (r : Run h.Payload)
      → lookup id (store_run pc rc m id r).runs ≡ some r
  lookup-store_run m id r =
      ap (lookup id) (runs-store_run m id r)
      ∙ ground (arith, lookup-insert id id r m.runs, eq_refl id)

  -- The run `id` is running at stage `i`, and its pipeline has the given stages.
  pub record Going (tenant id pid : String) (p : Pipeline h.Payload) (m : Manager h) (i : ℕ)
      : Type 0 where
    pub at : Run h.Payload
    pub stored : lookup id m.runs ≡ some at
    pub tenant_of : at.tenant ≡ tenant
    pub status_of : at.status ≡ "running"
    pub pipeline_of : at.pipeline_id ≡ pid
    pub stage_of : at.current_stage ≡ pos i
    pub planned : lookup pid m.pipelines ≡ some p

  -- What an advance of such a run does.
  moves :
      (tenant id pid : String) (p : Pipeline h.Payload) (m : Manager h) (i : ℕ) (now : Time)
      (g : Going tenant id pid p m i)
      → let s = advanced pc rc p.stages g.at false now in
        advance_run pc rc m tenant id false now ≡ (
          store_run pc rc m id s,
          if not (s.status == "running")
              then finished s
              else elim (stage_at p.stages s.current_stage) [
                | none ↦ advance_panics
                | some stage ↦ next_stage s stage
              ],
        )
  unfolding advance_run
  moves tenant id pid p m i now g =
      let t : g.at.tenant == tenant ≡ true = ap (λ x. x == tenant) g.tenant_of ∙ eq_refl tenant in
      let s : g.at.status == "running" ≡ true =
        ap (λ x. x == "running") g.status_of ∙ eq_refl "running" in
      let k : lookup g.at.pipeline_id m.pipelines ≡ some p =
        ap (λ x. lookup x m.pipelines) g.pipeline_of ∙ g.planned in
      rw (g.stored, advance_run)
        (rw (t, advance_run) (rw (s, advance_run) (rw (k, advance_run) refl)))

  advanced_more :
      (stages : List (Stage h.Payload)) (r : Run h.Payload) (i : ℕ) (now : Time)
      → r.current_stage ≡ pos i
      → i + 1 < length stages
      → i + 1 < half_word
      → advanced pc rc stages r false now
        ≡ record r { current_stage = pos (i + 1); updated_at = now }
  unfolding advanced
  advanced_more stages r i now e more small =
      let next : incr r.current_stage ≡ pos (i + 1) = ap incr e ∙ incr_in_range i small in
      rw (next, advanced) (ground arith)

  advanced_end :
      (stages : List (Stage h.Payload)) (r : Run h.Payload) (i : ℕ) (now : Time)
      → r.current_stage ≡ pos i
      → length stages ≤ i + 1
      → i + 1 < half_word
      → advanced pc rc stages r false now ≡ record r { status = "done"; updated_at = now }
  unfolding advanced
  advanced_end stages r i now e last small =
      let next : incr r.current_stage ≡ pos (i + 1) = ap incr e ∙ incr_in_range i small in
      rw (next, advanced) (ground arith)

  -- The stage that a reply hands out.
  abbrev pub handed : AdvanceReply h.Payload → Option (Stage h.Payload)
  handed run_not_found = none
  handed (not_running s) = none
  handed pipeline_gone = none
  handed (finished r) = none
  handed (next_stage r s) = some s
  handed advance_panics = none

  abbrev reply_of : Pipeline h.Payload → Run h.Payload → AdvanceReply h.Payload
  reply_of p s =
      if not (s.status == "running") then finished s else elim (stage_at p.stages s.current_stage) [
        | none ↦ advance_panics
        | some stage ↦ next_stage s stage
      ]

  moves_to :
      (tenant id pid : String) (p : Pipeline h.Payload) (m : Manager h) (i : ℕ) (now : Time)
      (g : Going tenant id pid p m i) (s : Run h.Payload)
      → advanced pc rc p.stages g.at false now ≡ s
      → advance_run pc rc m tenant id false now ≡ (store_run pc rc m id s, reply_of p s)
  moves_to tenant id pid p m i now g s e =
      moves tenant id pid p m i now g ∙ ap (λ x. (store_run pc rc m id x, reply_of p x)) e

  handed_running :
      (p : Pipeline h.Payload) (r : Run h.Payload) (i : ℕ) (s : Stage h.Payload)
      → r.status ≡ "running"
      → r.current_stage ≡ pos i
      → get_elem? p.stages i ≡ some s
      → handed (reply_of p r) ≡ some s
  handed_running p r i s e f there =
      let t : r.status == "running" ≡ true = ap (λ x. x == "running") e ∙ eq_refl "running" in
      ground (arith, t, f, there)

  pub goes_on :
      (tenant id pid : String) (p : Pipeline h.Payload) (m : Manager h) (i : ℕ) (now : Time)
      (s : Stage h.Payload)
      → Going tenant id pid p m i
      → get_elem? p.stages (i + 1) ≡ some s
      → i + 1 < length p.stages
      → i + 1 < half_word
      → let (next, reply) = advance_run pc rc m tenant id false now in
        (handed reply ≡ some s) × Going tenant id pid p next (i + 1)
  goes_on tenant id pid p m i now s g there more small =
      let r : Run h.Payload = record g.at { current_stage = pos (i + 1); updated_at = now } in
      let move =
        moves_to tenant id pid p m i now g r
          (advanced_more p.stages g.at i now g.stage_of more small) in
      rw move (
        handed_running p r (i + 1) s g.status_of refl there,
        record {
          at = r;
          stored = lookup-store_run m id r;
          tenant_of = g.tenant_of;
          status_of = g.status_of;
          pipeline_of = g.pipeline_of;
          stage_of = refl;
          planned = ap (lookup pid) (pipelines-store_run m id r) ∙ g.planned;
        },
      )

  pub finishes :
      (tenant id pid : String) (p : Pipeline h.Payload) (m : Manager h) (i : ℕ) (now : Time)
      → Going tenant id pid p m i
      → length p.stages ≤ i + 1
      → i + 1 < half_word
      → let (next, reply) = advance_run pc rc m tenant id false now in
        (handed reply ≡ none)
        × ((r : Run h.Payload) × (lookup id next.runs ≡ some r) × (r.status ≡ "done"))
  finishes tenant id pid p m i now g last small =
      let r : Run h.Payload = record g.at { status = "done"; updated_at = now } in
      let move =
        moves_to tenant id pid p m i now g r
          (advanced_end p.stages g.at i now g.stage_of last small) in
      rw move (refl, (r, lookup-store_run m id r, refl))
