-- ===== src/Jobs/Claims.antt =====
-- pkg/jobs/jobs.go: the loop of a claim, and what the claim does with the job that it finds.
use mathlib.Core.List.{Memᴰ}
use spectral_cloud.Prelude.{
  String, ◌≡◌, ◌⊎◌, refl, Bool, true, false, Option, none, some, List, [], ◌∷◌, arith,
  if◌then◌else◌, Bool-cases, inl, inr, ap, ◌∙◌, ◌==◌, ◌&&◌, All, sym,
}
use spectral_cloud.Prelude.Clock.{Time}
use spectral_cloud.Prelude.Dict.{lookup, values}
use spectral_cloud.Prelude.Distinct.{mem_values-lookup}
use spectral_cloud.Persist.{Host, Codec}
use spectral_cloud.Jobs.Record.{
  Job, claim_matches, tenant_claim_matches, is_better, challenge, best_from,
}
use spectral_cloud.Jobs.{Queue, take_job, claim, claim_for_tenant}
use spectral_cloud.Jobs.Effects.{lookup-store_job}
use spectral_cloud.Jobs.Ids.{IsNumbered}
use spectral_cloud.Jobs.Asked.{
  asked_for, asked_in, outranks, claim_matches_eq, tenant_claim_matches_eq, is_better_eq,
}

module _ {P : Type 0} where
  better_trans :
      (x b j : Job P) → is_better x b ≡ true → is_better x j ≡ false → is_better b j ≡ false
  unfolding is_better
  better_trans x b j h k = ground arith

  not_better_trans :
      (x b j : Job P) → is_better x b ≡ false → is_better b j ≡ false → is_better x j ≡ false
  unfolding is_better
  not_better_trans x b j h k = ground arith

  better_irrefl : (x : Job P) → is_better x x ≡ false
  unfolding is_better
  better_irrefl x = ground arith

module _ {P : Type 0} (candidate : Job P → Bool) where
  best_from-none :
      (js : List (Job P)) (o : Option (Job P))
      → best_from candidate o js ≡ none
      → (o ≡ none) × All (λ x. candidate x ≡ false) js
  unfolding best_from
  best_from-none [] o h = (h, tt)
  best_from-none (x ∷ js) o h = elim (Bool-cases (candidate x)) [
    | inl e ↦ absurd (let (f, r) = best_from-none js _ h in ground (arith, f, e))
    | inr e ↦ let (f, r) = best_from-none js _ h in (ground (arith, f, e), (e, r))
  ]

  abbrev Unbeaten : Job P → Option (Job P) → Type 0
  Unbeaten j none = Unit
  Unbeaten j (some b) = is_better b j ≡ false

  -- Who is not beaten by the winner of a challenge is not beaten by either side.
  Unbeaten-sides :
      (o : Option (Job P)) (x j : Job P)
      → is_better (challenge o x) j ≡ false
      → Unbeaten j o × (is_better x j ≡ false)
  Unbeaten-sides none x j h = (tt, h)
  Unbeaten-sides (some b) x j h = elim (Bool-cases (is_better x b)) [
    | inl e ↦ (better_trans x b j e (ground (arith, e, h)), ground (arith, e, h))
    | inr e ↦ (ground (arith, e, h), not_better_trans x b j e (ground (arith, e, h)))
  ]

  winner : (o : Option (Job P)) (x : Job P) → (o ≡ some (challenge o x)) ⊎ (challenge o x ≡ x)
  winner none x = inr refl
  winner (some b) x = elim (Bool-cases (is_better x b)) [
    | inl e ↦ inr (ground (arith, e))
    | inr e ↦ inl (ground (arith, e))
  ]

  -- A job is the best so far, or a candidate of the list.
  abbrev Found : Option (Job P) → List (Job P) → Job P → Type 0
  Found o js j = (o ≡ some j) ⊎ (Memᴰ j js × (candidate j ≡ true))

  Found-later :
      (o : Option (Job P)) (js : List (Job P)) (x j : Job P)
      → candidate x ≡ true
      → Found (some (challenge o x)) js j
      → Found o (x ∷ js) j
  Found-later o js x j e (inr (m, c)) = inr (Memᴰ.tail m, c)
  Found-later o js x j e (inl same) = elim (winner o x) [
    | inl old ↦ inl (old ∙ same)
    | inr new ↦ let is_x : j ≡ x = ground (arith, same, new) in inr (Memᴰ.head is_x, cc)
  ]

  Found-weaken :
      (o : Option (Job P)) (js : List (Job P)) (x j : Job P) → Found o js j → Found o (x ∷ js) j
  Found-weaken o js x j (inl same) = inl same
  Found-weaken o js x j (inr (m, c)) = inr (Memᴰ.tail m, c)

  best_from-some :
      (js : List (Job P)) (o : Option (Job P)) (j : Job P)
      → best_from candidate o js ≡ some j
      → Found o js j × Unbeaten j o × All (λ x. candidate x && is_better x j ≡ false) js
  unfolding best_from
  best_from-some [] none j h = absurd (ground arith)
  best_from-some [] (some b) j h =
      (inl h, (let same : b ≡ j = ground arith in rw same (better_irrefl j)), tt)
  best_from-some (x ∷ js) o j h = elim (Bool-cases (candidate x)) [
    | inr e ↦
        let (from, top, rest) = best_from-some js o j (ground (arith, e, h)) in
        (Found-weaken o js x j from, top, (ground (arith, e), rest))
    | inl e ↦
        let (from, top, rest) = best_from-some js (some (challenge o x)) j (ground (arith, e, h)) in
        let (old, new) = Unbeaten-sides o x j top in
        (Found-later o js x j e from, old, (ground (arith, e, new), rest))
  ]

module _ {P : Type 0} where
  All-weaken :
      (Q R : Job P → Type 0) → ((x : Job P) → Q x → R x) → (js : List (Job P)) → All Q js → All R js
  All-weaken Q R f [] h = tt
  All-weaken Q R f (j ∷ js) h = (f j h.0, All-weaken Q R f js h.1)

-- What a claim that asks for certain jobs does to a queue.
module _ {h : Host} (asked : Job h.Payload → Bool) (agent_id : String) (now : Time) where
  abbrev pub Served : Queue h → Queue h → Option (Job h.Payload) → Type 0
  Served q r none = (r.jobs ≡ q.jobs) × All (λ x. asked x ≡ false) (values q.jobs)
  Served q r (some j) =
      (best : Job h.Payload) × (lookup best.id q.jobs ≡ some best)
      × (asked best ≡ true)
      × All (λ x. asked x && outranks x best ≡ false) (values q.jobs)
      × (j ≡ record best {
        agent_id = if agent_id == "" then best.agent_id else agent_id;
        status = "running";
        updated_at = now;
      })
      × ((k : String) → lookup k r.jobs ≡ (if k == best.id then some j else lookup k q.jobs))

module _ {h : Host} (candidate : Job h.Payload → Bool) (agent_id : String) (now : Time) where
  -- The loop finds a job of the map, under its own identifier.
  pub best_from-lookup :
      (q : Queue h) (j : Job h.Payload)
      → IsNumbered q
      → best_from candidate none (values q.jobs) ≡ some j
      → (lookup j.id q.jobs ≡ some j) × (candidate j ≡ true)
  best_from-lookup q j v e = elim (best_from-some candidate (values q.jobs) none j e).0 [
    | inl f ↦ absurd (ground arith)
    | inr (m, c) ↦
        let (k, l) = mem_values-lookup j q.jobs v.distinct m in
        let (own, low) = v.each k j l in (ap (λ i. lookup i q.jobs) own ∙ l, c)
  ]

  serves :
      (asked : Job h.Payload → Bool)
      → ((x : Job h.Payload) → candidate x ≡ asked x)
      → (codec : Codec h (Job h.Payload)) (q : Queue h) (o : Option (Job h.Payload)) → IsNumbered q
      → best_from candidate none (values q.jobs) ≡ o
      → let (r, reply) = take_job codec q o agent_id now in Served asked agent_id now q r reply
  unfolding take_job
  serves asked same codec q none v e = (
    refl,
    All-weaken _ _ (λ x f. sym (same x) ∙ f) (values q.jobs)
        (best_from-none candidate (values q.jobs) none e).1,
  )
  serves asked same codec q (some j) v e =
      let (l, c) = best_from-lookup q j v e in
      let (from, top, rest) = best_from-some candidate (values q.jobs) none j e in
      (
        j,
        l,
        sym (same j) ∙ c,
        All-weaken _ _
            (λ x f.
              sym (ap (λ b. b && outranks x j) (same x))
              ∙ sym (ap (λ b. candidate x && b) (is_better_eq x j))
              ∙ f)
            (values q.jobs) rest,
        refl,
        λ k. lookup-store_job codec q j.id k _,
      )

module _ {h : Host} (codec : Codec h (Job h.Payload)) where
  -- On a queue whose jobs stand under their identifiers, both claims take a job that is asked for and
  -- is outranked by no other such job: none has a higher priority, nor the same priority and an
  -- earlier creation. `Claim` asks for the pending jobs of the agent, or if none is named of the
  -- capability, and `ClaimForTenant` for the pending jobs of the tenant that have the capability if
  -- one is named and are meant for no other agent if one is named. They make the job running, give
  -- it to the agent if one is named, and leave all other jobs alone. They return no job only if none
  -- is asked for, and then leave all jobs alone.
  pub claims-Served :
      (q : Queue h) (tenant agent_id capability : String) (now : Time)
      → IsNumbered q
      → (let (r, reply) = claim codec q agent_id capability now in
          Served (asked_for agent_id capability) agent_id now q r reply)
        × (let (r, reply) = claim_for_tenant codec q tenant agent_id capability now in
            Served (asked_in tenant agent_id capability) agent_id now q r reply)
  unfolding claim claim_for_tenant
  claims-Served q tenant agent_id capability now v = (
    serves (claim_matches agent_id capability) agent_id now (asked_for agent_id capability)
        (claim_matches_eq agent_id capability) codec q _ v refl,
    serves (tenant_claim_matches tenant agent_id capability) agent_id now
        (asked_in tenant agent_id capability) (tenant_claim_matches_eq tenant agent_id capability)
        codec q _ v refl,
  )
