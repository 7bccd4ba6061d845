-- ===== src/Jobs/Asked.antt =====
-- pkg/jobs/jobs.go: which jobs a claim asks for, and in which order, in a form apart from the code.
use spectral_cloud.Prelude.{
  String, ◌≡◌, Bool, true, false, arith, if◌then◌else◌, ◌==◌, ◌&&◌, ◌||◌, ltb,
}
use spectral_cloud.Prelude.Int.{ltb_ℤ, leb_ℤ}
use spectral_cloud.Jobs.Record.{Job, claim_matches, tenant_claim_matches, is_better}

-- Who is asked for by `Claim`: a pending job of the agent, or of the capability if no agent is named.
abbrev pub asked_for : {P : Type 0} → String → String → Job P → Bool
asked_for agent_id capability j =
    if j.status == "pending"
    then (if agent_id == ""
        then (if capability == "" then false else j.capability == capability)
        else j.agent_id == agent_id)
    else false

-- Who is asked for by `ClaimForTenant`: a pending job of the tenant, of the capability if one is
-- named, and meant for no other agent if one is named.
abbrev pub asked_in : {P : Type 0} → String → String → String → Job P → Bool
asked_in tenant agent_id capability j =
    if j.status == "pending"
    then (if j.tenant == tenant
        then (if capability == "" then true else j.capability == capability)
          && (if agent_id == ""
              then true
              else if j.agent_id == ""
              then true
              else j.agent_id == agent_id)
        else false)
    else false

-- A higher priority, or one not lower and an earlier creation.
abbrev pub outranks : {P : Type 0} → Job P → Job P → Bool
outranks x y =
    ltb_ℤ y.priority x.priority || (leb_ℤ y.priority x.priority && ltb x.created_at y.created_at)

module _ {P : Type 0} where
  pub claim_matches_eq :
      (agent_id capability : String) (j : Job P)
      → claim_matches agent_id capability j ≡ asked_for agent_id capability j
  unfolding claim_matches
  claim_matches_eq agent_id capability j = ground arith

  pub tenant_claim_matches_eq :
      (tenant agent_id capability : String) (j : Job P)
      → tenant_claim_matches tenant agent_id capability j ≡ asked_in tenant agent_id capability j
  unfolding tenant_claim_matches
  tenant_claim_matches_eq tenant agent_id capability j = ground arith

  pub is_better_eq : (x y : Job P) → is_better x y ≡ outranks x y
  unfolding is_better
  is_better_eq x y = ground arith
