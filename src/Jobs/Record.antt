-- ===== src/Jobs/Record.antt =====
-- pkg/jobs/jobs.go: a job, its identifier, and the tests and the order by which jobs are chosen.
use Prim.Native.String.{◌++◌ as str_append}
use spectral_cloud.Prelude.{
  ℕ, ◌+◌, String, Bool, true, false, not, Option, none, some, List, [], ◌∷◌, ◌==◌, ◌&&◌, ◌||◌,
  if◌then◌else◌,
}
use spectral_cloud.Prelude.Int.{ℤ, pos, ltb_ℤ, eqb_ℤ, ◌+ℤ◌, ◌-ℤ◌, wrap}
use spectral_cloud.Prelude.Clock.{Time, Duration, add_time, seconds, after, before, passed}
use spectral_cloud.Prelude.Decimal.{show, scan, strip_prefix}
use spectral_cloud.Prelude.Dict.{Dict, lookup, insert}
use mathlib.Core.List.{reverse}

pub record Job (P : Type 0) : Type 0 where
  pub id : String
  pub tenant : String
  pub agent_id : String
  pub capability : String
  pub payload : P
  pub priority : ℤ
  pub ttl_seconds : ℤ
  pub status : String
  pub result : String
  pub error : String
  pub created_at : Time
  pub updated_at : Time
  pub expires_at : Option Time

abbrev pub job_key_prefix : String
job_key_prefix = "job_"

pub record SubmitOptions : Type 0 where
  pub priority : ℤ
  pub ttl_seconds : ℤ

unfoldable pub parse_job_num : String → ℕ
unfolding scan strip_prefix
parse_job_num id = elim (strip_prefix "job-" id) [ none ↦ 0 | some rest ↦ scan rest ]

unfoldable pub job_id : ℕ → String
job_id n = str_append "job-" (show n)

unfoldable pub is_terminal : String → Bool
is_terminal s = s == "done" || s == "failed" || s == "cancelled"

-- The candidates of `Claim` and of `ClaimForTenant`.
unfoldable pub claim_matches : {P : Type 0} → String → String → Job P → Bool
claim_matches agent_id capability j =
    j.status == "pending"
    && (if not (agent_id == "")
        then j.agent_id == agent_id
        else if not (capability == "")
        then j.capability == capability
        else false)

unfoldable pub tenant_claim_matches : {P : Type 0} → String → String → String → Job P → Bool
tenant_claim_matches tenant agent_id capability j =
    j.status == "pending"
    && j.tenant == tenant
    && (capability == "" || j.capability == capability)
    && (agent_id == "" || j.agent_id == "" || j.agent_id == agent_id)

-- j.Priority > best.Priority || (equal && j.CreatedAt.Before(best.CreatedAt))
unfoldable pub is_better : {P : Type 0} → Job P → Job P → Bool
is_better j best =
    ltb_ℤ best.priority j.priority
    || (eqb_ℤ j.priority best.priority && before j.created_at best.created_at)

abbrev pub challenge : {P : Type 0} → Option (Job P) → Job P → Job P
challenge none j = j
challenge (some best) j = if is_better j best then j else best

unfoldable pub best_from :
    {P : Type 0} → (Job P → Bool) → Option (Job P) → List (Job P) → Option (Job P)
best_from candidate best [] = best
best_from candidate best (j ∷ js) =
    best_from candidate (if candidate j then some (challenge best j) else best) js

-- The insertion sort of `List`, over the sorted part of the slice with its last entry first.
unfoldable pub sift : {P : Type 0} → Job P → List (Job P) → List (Job P)
sift x [] = x ∷ []
sift x (y ∷ ys) =
    let moved = sift x ys in
    elim (after x.created_at y.created_at) [ true ↦ y ∷ moved | false ↦ x ∷ y ∷ ys ]

unfoldable pub sort_from : {P : Type 0} → List (Job P) → List (Job P) → List (Job P)
unfolding sift
sort_from done [] = reverse done
sort_from done (x ∷ xs) = sort_from (sift x done) xs

abbrev pub in_tenant : {P : Type 0} → String → Job P → Bool
in_tenant tenant j = tenant == "" || j.tenant == tenant

unfoldable pub bump : String → Dict ℕ → Dict ℕ
bump s counts = elim (lookup s counts) [
  | none ↦ insert s 1 counts
  | some n ↦ insert s (n + 1) counts
]

unfoldable pub count_statuses : {P : Type 0} → List (Job P) → Dict ℕ → Dict ℕ
unfolding bump
count_statuses [] counts = counts
count_statuses (j ∷ js) counts = count_statuses js (bump j.status counts)

unfoldable pub is_stale : {P : Type 0} → Time → Job P → Bool
is_stale now j = j.status == "pending" && passed j.expires_at now

-- t.Before(now.Add(-maxAge)): `-maxAge` wraps at the least `int64`, and the sum is an integer, since
-- a long age leads to an instant before the zero time.
unfoldable pub is_old : {P : Type 0} → Duration → Time → Job P → Bool
unfolding is_terminal wrap
is_old max_age now j =
    is_terminal j.status && ltb_ℤ (pos j.updated_at) (pos now +ℤ wrap (pos 0 -ℤ max_age))

unfoldable pub make_job :
    {P : Type 0} → String → String → String → String → P → SubmitOptions → Time → Job P
unfolding add_time seconds
make_job id tenant agent_id capability payload opts now = record {
  id = id;
  tenant = tenant;
  agent_id = agent_id;
  capability = capability;
  payload = payload;
  priority = opts.priority;
  ttl_seconds = opts.ttl_seconds;
  status = "pending";
  result = "";
  error = "";
  created_at = now;
  updated_at = now;
  expires_at =
      if ltb_ℤ (pos 0) opts.ttl_seconds
      then some (add_time now (seconds opts.ttl_seconds))
      else none;
}
