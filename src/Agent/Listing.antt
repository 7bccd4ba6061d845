-- ===== src/Agent/Listing.antt =====
-- pkg/agent/agent.go: the operations that go through all agents, and the choice of one.
use Prim.Native.String.{◌++◌ as str_append}
use spectral_cloud.Prelude.{
  ℕ, ◌+◌, String, Bool, true, false, not, Option, none, some, List, [], ◌∷◌, ◌++◌, ◌==◌, ◌&&◌, ◌||◌,
  ltb, eqb, if◌then◌else◌, length, select, count_if,
}
use spectral_cloud.Prelude.Clock.{Time, after, before}
use spectral_cloud.Prelude.Dict.{Dict, lookup, remove, keys}
use spectral_cloud.Prelude.Sort.{sort_by}
use spectral_cloud.Prelude.Sweep.{sweep}
use spectral_cloud.Prelude.Decimal.{strip_prefix}
use spectral_cloud.Agent.{Agent, Registry, is_gone}

-- One round of the loop of `List`: the agents kept so far, the last one first.
unfoldable pub list_round : String → Time → Registry × List Agent → String → Registry × List Agent
list_round tenant_id now (r, out) key = elim (lookup key r.agents) [
  | none ↦ (r, out)
  | some a ↦
      if is_gone now a
      then (record { agents = remove key r.agents }, out)
      else if not (tenant_id == "") && not (a.tenant_id == tenant_id)
      then (r, out)
      else (r, out ++ (a ∷ []))
]

abbrev pub older : Agent → Agent → Bool
older a b = before a.registered_at b.registered_at

unfoldable pub list : Registry → String → Time → Registry × List Agent
unfolding sweep list_round sort_by
list r tenant_id now =
    let (s, out) = sweep (list_round tenant_id now) (r, []) (keys r.agents) in
    (s, sort_by older out)

unfoldable pub has_capability : String → List String → Bool
has_capability capability [] = false
has_capability capability (c ∷ cs) =
    let rest = has_capability capability cs in if c == capability then true else rest

unfoldable pub list_by_capability : Registry → String → String → Time → Registry × List Agent
unfolding list has_capability
list_by_capability r tenant_id capability now =
    let (s, all) = list r tenant_id now in
    if capability == ""
    then (s, all)
    else (s, select (λ a. has_capability capability a.capabilities) all)

-- m[k] with the zero value of a missing key
unfoldable pub tag_of : Dict String → String → String
tag_of m k = elim (lookup k m) [ none ↦ "" | some v ↦ v ]

unfoldable pub selected_by : Dict String → List String → Agent → Bool
unfolding tag_of
selected_by selector [] a = true
selected_by selector (k ∷ ks) a =
    let rest = selected_by selector ks a in
    if tag_of a.tags k == tag_of selector k then rest else false

unfoldable pub list_by_selector : Registry → String → Dict String → Time → Registry × List Agent
unfolding list selected_by
list_by_selector r tenant_id selector now =
    let (s, all) = list r tenant_id now in
    if eqb (length selector) 0
    then (s, all)
    else (s, select (selected_by selector (keys selector)) all)

unfoldable pub prune_round : Time → Registry × ℕ → String → Registry × ℕ
prune_round now (r, n) key = elim (lookup key r.agents) [
  | none ↦ (r, n)
  | some a ↦ if is_gone now a then (record { agents = remove key r.agents }, n + 1) else (r, n)
]

unfoldable pub prune : Registry → Time → Registry × ℕ
unfolding sweep prune_round
prune r now = sweep (prune_round now) (r, 0) (keys r.agents)

abbrev pub of_tenant : String → Time → String × Agent → Bool
of_tenant tenant_id now e =
    elim (strip_prefix (str_append tenant_id "/") e.0) [ none ↦ false | some rest ↦ true ]
    && not (is_gone now e.1)

unfoldable pub count_by_tenant : Registry → String → Time → ℕ
unfolding strip_prefix
count_by_tenant r tenant_id now = count_if (of_tenant tenant_id now) r.agents

unfoldable pub score : String → ℕ
score s = if s == "healthy" then 2 else if s == "degraded" then 1 else 0

unfoldable pub beats : Agent → Agent → Bool
unfolding score
beats a best =
    ltb (score best.status) (score a.status)
    || (eqb (score a.status) (score best.status) && after a.last_seen best.last_seen)

unfoldable pub best_from : Agent → List Agent → Agent
unfolding beats
best_from best [] = best
best_from best (a ∷ rest) = best_from (if beats a best then a else best) rest

unfoldable pub find_best : Registry → String → String → Time → Registry × Option Agent
unfolding list_by_capability best_from
find_best r tenant_id capability now =
    let (s, candidates) = list_by_capability r tenant_id capability now in
    (s, elim candidates [ [] ↦ none | a ∷ rest ↦ some (best_from a rest) ])

unfoldable pub count : Registry → Time → ℕ
count r now = count_if (λ e. not (is_gone now e.1)) r.agents
