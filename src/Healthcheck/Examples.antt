-- ===== src/Healthcheck/Examples.antt =====
-- Tests of the health checks, and their theorem at a concrete input.
use spectral_cloud.Prelude.{◌≡◌, ◌≤◌, refl, none, some, [], ◌∷◌, arith, inr, if◌then◌else◌}
use spectral_cloud.Prelude.Int.{pos}
use spectral_cloud.Prelude.Dict.{lookup}
use spectral_cloud.Agent.{Agent, agent_key, get}
use spectral_cloud.Healthcheck.{Network, Result, Checker, new, answer_of, check_one, result_for}
use spectral_cloud.Healthcheck.Effects.{is_healthy, get-check_one}

abbrev agent : Agent
agent = record {
  id = "a";
  tenant_id = "t";
  addr = " host ";
  status = "unknown";
  tags = [];
  capabilities = [];
  registered_at = 1;
  last_seen = 2;
  expires_at = none;
}

-- Every server answers with the code 503 after 7.
abbrev failing : Network
failing = record {
  fetch = λ url now. record {
    outcome = inr (pos 503);
    latency_ms = pos 7;
    done = 107;
    random_id = "e";
  };
  show_code = λ code. "503";
}

abbrev checker : Checker
checker = new (record { agents = ("t/a", agent) ∷ [] }) none (pos 0) (pos 0)

found : lookup (agent_key agent.tenant_id agent.id) checker.registry.agents ≡ some agent
unfolding lookup agent_key new
found = refl

early : (answer_of failing agent 100).done ≤ 200
unfolding answer_of
early = omega arith

get-check_one_example :
    let answer = answer_of failing agent 100 in
    let d = (check_one failing (checker, 100) agent).0 in
    ((get d.registry "t" "a" 200).1
      ≡ some (record agent {
        status = if is_healthy answer.outcome then "healthy" else "degraded";
        last_seen = answer.done;
      }))
    × ((r : Result) × (result_for d "t" "a" ≡ some r)
        × (r.healthy ≡ is_healthy answer.outcome)
        × (r.checked_at ≡ 100))
get-check_one_example = get-check_one failing checker 100 200 agent agent found refl early
