-- ===== src/Agent.antt =====
-- pkg/agent/agent.go: the registry of agents. The time of a call is an argument. A loop over the map
-- is a loop over its keys.
pub mod Listing
pub mod Live
pub mod Listed
pub mod Best
pub mod Lease
mod Examples
use Prim.Native.String.{◌++◌ as str_append}
use spectral_cloud.Prelude.{
  ℕ, zero, suc, ◌+◌, String, Bool, true, false, not, Option, none, some, List, [], ◌∷◌, ◌++◌, ◌==◌,
  ◌&&◌, ◌||◌, ltb, eqb, if◌then◌else◌, length, select, count_if,
}
use spectral_cloud.Prelude.Int.{ℤ, pos, ltb_ℤ}
use spectral_cloud.Prelude.Clock.{Time, Duration, add_time, seconds, after, before, passed}
use spectral_cloud.Prelude.Dict.{Dict, lookup, insert, remove, keys}
use spectral_cloud.Prelude.Sort.{sort_by}
use spectral_cloud.Prelude.Sweep.{sweep}
use spectral_cloud.Prelude.Decimal.{strip_prefix}

pub record Agent : Type 0 where
  pub id : String
  pub tenant_id : String
  pub addr : String
  pub status : String
  pub tags : Dict String
  pub capabilities : List String
  pub registered_at : Time
  pub last_seen : Time
  pub expires_at : Option Time

-- A nil map or slice in a request is `none`.
pub record RegisterRequest : Type 0 where
  pub id : String
  pub tenant_id : String
  pub addr : String
  pub status : String
  pub tags : Option (Dict String)
  pub capabilities : Option (List String)
  pub ttl_seconds : ℤ

pub record UpdateRequest : Type 0 where
  pub status : String
  pub tags : Option (Dict String)
  pub capabilities : Option (List String)
  pub addr : String

pub record Registry : Type 0 where
  pub agents : Dict Agent

pub data AgentError : Type 0 where
  id_required : AgentError
  tenant_required : AgentError
  agent_not_found : AgentError

unfoldable pub new_registry : Registry
new_registry = record { agents = [] }

unfoldable pub agent_key : String → String → String
agent_key tenant_id id = str_append tenant_id (str_append "/" id)

abbrev pub is_gone : Time → Agent → Bool
is_gone now a = passed a.expires_at now

abbrev pub or_empty {ℓ} : {A : Type ℓ} → Option (List A) → List A
or_empty none = []
or_empty (some xs) = xs

abbrev pub or_else {ℓ} : {A : Type ℓ} → A → Option A → A
or_else old none = old
or_else old (some new) = new

abbrev pub deadline : ℤ → Time → Option Time → Option Time
deadline ttl now old = if ltb_ℤ (pos 0) ttl then some (add_time now (seconds ttl)) else old

abbrev pub registered : Time → Option Agent → Time
registered now none = now
registered now (some a) = a.registered_at

unfoldable pub register : Registry → RegisterRequest → Time → Registry × Option AgentError
unfolding agent_key add_time seconds
register r req now =
    if req.id == ""
    then (r, some id_required)
    else if req.tenant_id == ""
    then (r, some tenant_required)
    else (let key = agent_key req.tenant_id req.id in
        let a : Agent = record {
          id = req.id;
          tenant_id = req.tenant_id;
          addr = req.addr;
          status = if req.status == "" then "unknown" else req.status;
          tags = or_empty req.tags;
          capabilities = or_empty req.capabilities;
          registered_at = registered now (lookup key r.agents);
          last_seen = now;
          expires_at = deadline req.ttl_seconds now none;
        } in
        (record { agents = insert key a r.agents }, none))

-- The lookup that `Heartbeat`, `UpdateStatus`, `Update` and `Get` begin with: an expired agent is
-- removed and counts as missing.
unfoldable pub find_live : Registry → String → Time → Registry × Option Agent
find_live r key now = elim (lookup key r.agents) [
  | none ↦ (r, none)
  | some a ↦ if is_gone now a then (record { agents = remove key r.agents }, none) else (r, some a)
]

-- What the three operations that change a live agent share.
unfoldable pub change_live :
    Registry → String → (Agent → Agent) → Time → Registry × Option AgentError
unfolding find_live
change_live r key change now =
    let (s, found) = find_live r key now in
    elim found [
      | none ↦ (s, some agent_not_found)
      | some a ↦ (record { agents = insert key (change a) s.agents }, none)
    ]

unfoldable pub heartbeat : Registry → String → String → ℤ → Time → Registry × Option AgentError
unfolding change_live agent_key add_time seconds
heartbeat r tenant_id id ttl_seconds now =
    change_live r (agent_key tenant_id id)
      (λ a. record a { last_seen = now; expires_at = deadline ttl_seconds now a.expires_at }) now

unfoldable pub update_status :
    Registry → String → String → String → Time → Registry × Option AgentError
unfolding change_live agent_key
update_status r tenant_id id status now =
    change_live r (agent_key tenant_id id) (λ a. record a { status = status; last_seen = now }) now

abbrev pub patched : UpdateRequest → Time → Agent → Agent
patched req now a = record a {
  status = if req.status == "" then a.status else req.status;
  addr = if req.addr == "" then a.addr else req.addr;
  tags = or_else a.tags req.tags;
  capabilities = or_else a.capabilities req.capabilities;
  last_seen = now;
}

unfoldable pub update :
    Registry → String → String → UpdateRequest → Time → Registry × Option AgentError
unfolding change_live agent_key
update r tenant_id id req now = change_live r (agent_key tenant_id id) (patched req now) now

unfoldable pub deregister : Registry → String → String → Registry × Option AgentError
unfolding agent_key
deregister r tenant_id id = elim (lookup (agent_key tenant_id id) r.agents) [
  | none ↦ (r, some agent_not_found)
  | some a ↦ (record { agents = remove (agent_key tenant_id id) r.agents }, none)
]

unfoldable pub get : Registry → String → String → Time → Registry × Option Agent
unfolding find_live agent_key
get r tenant_id id now = find_live r (agent_key tenant_id id) now

unfoldable pub is_valid_status : String → Bool
is_valid_status s = s == "healthy" || s == "degraded" || s == "unknown"
