-- ===== src/Agent/Examples.antt =====
-- Tests of the registry of agents, and its theorems at concrete inputs.
use text.Mathlib.TextLemmas.{cons≢nil}
use spectral_cloud.Prelude.{
  ◌≡◌, ◌↔◌, ◌+◌, ◌*◌, ◌<◌, refl, String, Option, none, some, [], ◌∷◌, ◌==◌, if◌then◌else◌, arith,
}
use spectral_cloud.Prelude.Int.{pos}
use spectral_cloud.Prelude.Dict.{lookup, remove}
use spectral_cloud.Prelude.Clock.{Time}
use spectral_cloud.Prelude.Sort.{insert_by}
use spectral_cloud.Agent.{
  Agent, Registry, RegisterRequest, agent_key, register, get, heartbeat, find_live,
}
use spectral_cloud.Agent.Listing.{list, list_by_capability, list_by_selector, find_best, prune}
use spectral_cloud.Agent.Live.{alive, SameLive}
use spectral_cloud.Agent.Best.{IsBest, find_best-IsBest}
use spectral_cloud.Agent.Lease.{reads-SameLive, get-register, get-heartbeat, stored}

abbrev agent : String → String → Option Time → Agent
agent id status expires_at = record {
  id = id;
  tenant_id = "t";
  addr = "";
  status = status;
  tags = ("zone", "eu") ∷ [];
  capabilities = "ocr" ∷ [];
  registered_at = 1;
  last_seen = 5;
  expires_at = expires_at;
}

abbrev three : Registry
three = record {
  agents =
      ("t/a", agent "a" "degraded" none)
      ∷ ("t/b", agent "b" "healthy" (some 10))
      ∷ ("t/c", agent "c" "healthy" (some 30))
      ∷ [];
}

-- At 20 the agent `b` has expired, so the healthy one is `c`.
best_is_c : (find_best three "t" "ocr" 20).1 ≡ some (agent "c" "healthy" (some 30))
unfolding find_best lookup remove insert_by
best_is_c = refl

find_best-IsBest_example : IsBest three "t" "ocr" 20 (find_best three "t" "ocr" 20).1
find_best-IsBest_example = find_best-IsBest three "t" "ocr" 20

reads-SameLive_example :
    SameLive 20 three (get three "t" "b" 20).0
    × SameLive 20 three (list three "t" 20).0
    × SameLive 20 three (list_by_capability three "t" "ocr" 20).0
    × SameLive 20 three (list_by_selector three "t" (("zone", "eu") ∷ []) 20).0
    × SameLive 20 three (find_best three "t" "ocr" 20).0
    × SameLive 20 three (prune three 20).0
reads-SameLive_example = reads-SameLive three "t" "b" "ocr" (("zone", "eu") ∷ []) 20

abbrev request : RegisterRequest
request = record {
  id = "b";
  tenant_id = "t";
  addr = "";
  status = "";
  tags = none;
  capabilities = none;
  ttl_seconds = pos 60;
}

get-register_example : (get (register three request 20).0 "t" "a" 40).1 ≡ (
    if agent_key "t" "a" == agent_key "t" "b"
    then alive 40 (some (stored three request 20))
    else (get three "t" "a" 40).1)
get-register_example = get-register three request "t" "a" 20 40 (λ e. cons≢nil e) (λ e. cons≢nil e)

accepted : (heartbeat three "t" "c" (pos 60) 20).1 ≡ none
unfolding heartbeat find_live lookup
accepted = refl

get-heartbeat_example :
    ((get (heartbeat three "t" "c" (pos 60) 20).0 "t" "c" 50).1 ≡ none)
    ↔ (20 + 60 * 1_000_000_000 < 50)
get-heartbeat_example = get-heartbeat three "t" "c" 60 20 50 accepted (omega arith) (omega arith)
