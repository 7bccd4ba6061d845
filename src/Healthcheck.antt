-- ===== src/Healthcheck.antt =====
-- pkg/healthcheck/healthcheck.go: a round of checks, over the registry of pkg/agent and the broker of
-- pkg/events. What the network answers to a request is a parameter; the clock moves on with each
-- request.
pub mod Effects
mod Examples
use Prim.Native.String.{◌++◌ as str_append}
use spectral_cloud.Prelude.{
  String, Bool, true, false, not, Option, none, some, List, [], ◌∷◌, ◌==◌, ◌&&◌, if◌then◌else◌, ◌⊎◌,
  inl, inr, select,
}
use spectral_cloud.Prelude.Int.{ℤ, pos, leb_ℤ, ltb_ℤ}
use spectral_cloud.Prelude.Clock.{Time, Duration}
use spectral_cloud.Prelude.Dict.{Dict, lookup, insert, values}
use spectral_cloud.Prelude.Decimal.{strip_prefix}
use spectral_cloud.Prelude.Spaces.{trim_space}
use spectral_cloud.Agent.{Agent, Registry, update_status}
use spectral_cloud.Agent.Listing.{list}
use spectral_cloud.Events.{Event, Broker, publish}

pub record Result : Type 0 where
  pub agent_id : String
  pub tenant : String
  pub addr : String
  pub healthy : Bool
  pub http_code : ℤ
  pub error : String
  pub latency_ms : ℤ
  pub checked_at : Time

-- The data of a health event.
pub record HealthData : Type 0 where
  pub id : String
  pub addr : String
  pub healthy : Bool
  pub latency_ms : ℤ
  pub error : String

-- The answer to a GET: an error, or the code of the response. `done` is the time after it, and
-- `random_id` the identifier for the event that follows.
pub record Answer : Type 0 where
  pub outcome : String ⊎ ℤ
  pub latency_ms : ℤ
  pub done : Time
  pub random_id : String

-- The answer to a request to a URL that starts at a time, and the printing of a code.
pub record Network : Type 0 where
  pub fetch : String → Time → Answer
  pub show_code : ℤ → String

pub record Checker : Type 0 where
  pub registry : Registry
  pub broker : Option (Broker HealthData)
  pub interval : Duration
  pub timeout : Duration
  pub results : Dict Result

unfoldable pub new : Registry → Option (Broker HealthData) → Duration → Duration → Checker
new registry broker interval timeout = record {
  registry = registry;
  broker = broker;
  interval = if leb_ℤ interval (pos 0) then pos 30_000_000_000 else interval;
  timeout = if leb_ℤ timeout (pos 0) then pos 5_000_000_000 else timeout;
  results = [];
}

abbrev pub starts_with : String → String → Bool
starts_with p s = elim (strip_prefix p s) [ none ↦ false | some rest ↦ true ]

unfoldable pub url_of : String → String
unfolding strip_prefix
url_of addr =
    if not (starts_with "http://" addr) && not (starts_with "https://" addr)
    then str_append "http://" (str_append addr "/health")
    else addr

unfoldable pub is_success : ℤ → Bool
is_success code = leb_ℤ (pos 200) code && ltb_ℤ code (pos 300)

module _ (net : Network) where
  unfoldable pub answer_of : Agent → Time → Answer
  unfolding trim_space url_of
  answer_of ag now = net.fetch (url_of (trim_space ag.addr)) now

  -- The result for an answer.
  abbrev pub ping_result : Agent → Time → String ⊎ ℤ → Result
  ping_result ag now (inl err) = record {
    agent_id = ag.id;
    tenant = "";
    addr = trim_space ag.addr;
    healthy = false;
    http_code = pos 0;
    error = str_append "connection failed: " err;
    latency_ms = (answer_of ag now).latency_ms;
    checked_at = now;
  }
  ping_result ag now (inr code) = record {
    agent_id = ag.id;
    tenant = "";
    addr = trim_space ag.addr;
    healthy = is_success code;
    http_code = code;
    error = if not (is_success code) then str_append "HTTP " (net.show_code code) else "";
    latency_ms = (answer_of ag now).latency_ms;
    checked_at = now;
  }

  unfoldable pub ping : Agent → Time → Result
  unfolding answer_of is_success trim_space
  ping ag now = ping_result ag now (answer_of ag now).outcome

  abbrev pub new_status : Bool → String
  new_status healthy = if not healthy then "degraded" else "healthy"

  -- One round of the second loop of `runChecks`, and the time after it.
  unfoldable pub check_one : Checker × Time → Agent → Checker × Time
  unfolding ping answer_of update_status publish
  check_one (c, now) ag =
      let answer = answer_of ag now in
      let result : Result = record (ping ag now) { tenant = ag.tenant_id } in
      let key = str_append ag.tenant_id (str_append "/" ag.id) in
      let (registry, err) =
        update_status c.registry ag.tenant_id ag.id (new_status result.healthy) answer.done in
      let body : HealthData = record {
        id = ag.id;
        addr = ag.addr;
        healthy = result.healthy;
        latency_ms = result.latency_ms;
        error = result.error;
      } in
      let event : Event HealthData = record {
        id = "";
        type_of = if not result.healthy then "agent_health_fail" else "agent_health_ok";
        tenant_id = ag.tenant_id;
        timestamp = result.checked_at;
        payload = body;
      } in
      (
        record c {
          results = insert key result c.results;
          registry = registry;
          broker = elim c.broker [
            | none ↦ none
            | some b ↦ some (publish b event answer.done answer.random_id)
          ];
        },
        answer.done,
      )

  unfoldable pub check_all : Checker × Time → List Agent → Checker × Time
  unfolding check_one
  check_all s [] = s
  check_all s (ag ∷ ags) = check_all (check_one s ag) ags

  unfoldable pub run_checks : Checker → Time → Checker × Time
  unfolding check_all list trim_space
  run_checks c now =
      let (registry, all) = list c.registry "" now in
      check_all (record c { registry = registry }, now)
        (select (λ ag. not (trim_space ag.addr == "")) all)

unfoldable pub results : Checker → List Result
results c = values c.results

unfoldable pub result_for : Checker → String → String → Option Result
result_for c tenant_id agent_id = lookup (str_append tenant_id (str_append "/" agent_id)) c.results
