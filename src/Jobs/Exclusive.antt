-- ===== src/Jobs/Exclusive.antt =====
-- pkg/jobs/jobs.go: two claims in a row.
use spectral_cloud.Prelude.{
  String, ◌≡◌, ◌≢◌, Bool, true, Option, none, some, arith, eq_iff, ap, ◌∙◌, sym,
}
use spectral_cloud.Prelude.Clock.{Time}
use spectral_cloud.Prelude.Dict.{lookup}
use spectral_cloud.Persist.{Host, Codec}
use spectral_cloud.Jobs.Record.{Job, tenant_claim_matches}
use spectral_cloud.Jobs.{Queue, claim_for_tenant}
use spectral_cloud.Jobs.Ids.{IsNumbered, take-IsNumbered}
use spectral_cloud.Jobs.Asked.{asked_in}
use spectral_cloud.Jobs.Claims.{Served, claims-Served, best_from-lookup}

module _ {h : Host} (codec : Codec h (Job h.Payload)) where
  claim_for_tenant-IsNumbered :
      (q : Queue h) (t a c : String) (now : Time)
      → IsNumbered q
      → IsNumbered (claim_for_tenant codec q t a c now).0
  unfolding claim_for_tenant
  claim_for_tenant-IsNumbered q t a c now v =
      take-IsNumbered codec q _ a now v
        (λ j e. (best_from-lookup (tenant_claim_matches t a c) a now q j v e).0)

  -- What is found under the identifier of a job just claimed is that job, and it is running.
  claimed :
      (candidate : Job h.Payload → Bool) (a : String) (now : Time) (q r : Queue h)
      (j : Job h.Payload)
      → Served candidate a now q r (some j)
      → (lookup j.id r.jobs ≡ some j) × (j.status ≡ "running")
  claimed candidate a now q r j (best, found, ok, top, made, at) =
      let same : j.id ≡ best.id = ap (λ x. x.id) made in
      (at j.id ∙ ground (arith, same, eq_iff j.id best.id), ap (λ x. x.status) made)

  pending_matches :
      (t a c : String) (j : Job h.Payload) → asked_in t a c j ≡ true → j.status ≡ "pending"
  pending_matches t a c j e = ground (arith, eq_iff j.status "pending")

  running_not_pending :
      (o : Option (Job h.Payload)) (j x : Job h.Payload)
      → o ≡ some j
      → o ≡ some x
      → j.status ≡ "running"
      → x.status ≢ "pending"
  running_not_pending o j x e f run wait =
      let same : j.status ≡ x.status = ground (arith, e, f) in
      absurd (ground (arith, same, run, wait, eq_iff "running" "pending"))

  -- The second of two claims takes a job that was pending after the first one.
  second_differs :
      (first second : Option (Job h.Payload)) (t a c u b d : String) (now later : Time)
      (q r s : Queue h) (j k : Job h.Payload)
      → Served (asked_in t a c) a now q r first
      → Served (asked_in u b d) b later r s second
      → first ≡ some j
      → second ≡ some k
      → j.id ≢ k.id
  second_differs none second t a c u b d now later q r s j k one two e f same =
      absurd (ground (arith, e))
  second_differs (some x) none t a c u b d now later q r s j k one two e f same =
      absurd (ground (arith, f))
  second_differs (some x) (some y) t a c u b d now later q r s j k one
        (best, found, ok, top, made, later_jobs) e f same =
      let (held, running) = claimed (asked_in t a c) a now q r x one in
      let own : x.id ≡ best.id = ground (arith, e, f, same, ap (λ z. z.id) made) in
      running_not_pending (lookup best.id r.jobs) x best
        (ap (λ i. lookup i r.jobs) (sym own) ∙ held) found running (pending_matches u b d best ok)

  -- On a queue whose jobs stand under their identifiers, two calls of `ClaimForTenant` that follow
  -- each other, for any tenants, agents and capabilities, return jobs with different identifiers if
  -- both return one.
  pub claim_twice :
      (q : Queue h) (t a c u b d : String) (now later : Time) (j k : Job h.Payload)
      → IsNumbered q
      → (claim_for_tenant codec q t a c now).1 ≡ some j
      → (claim_for_tenant codec (claim_for_tenant codec q t a c now).0 u b d later).1 ≡ some k
      → j.id ≢ k.id
  claim_twice q t a c u b d now later j k v e f =
      let r = (claim_for_tenant codec q t a c now).0 in
      let w = claim_for_tenant-IsNumbered q t a c now v in
      second_differs _ _ t a c u b d now later q r (claim_for_tenant codec r u b d later).0 j k
        (claims-Served codec q t a c now v).1 (claims-Served codec r u b d later w).1 e f
