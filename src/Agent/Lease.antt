-- ===== src/Agent/Lease.antt =====
-- pkg/agent/agent.go: reads after other calls.
use mathlib.Core.Path.{subst}
use spectral_cloud.Prelude.{
  ℕ, ◌+◌, ◌*◌, ◌<◌, ◌≤◌, String, ◌≡◌, ◌≢◌, ◌↔◌, ◌⊎◌, refl, Bool, true, false, Option, none, some,
  ◌==◌, arith, eq_iff, eq_refl, eqb, length, if◌then◌else◌, Option-cases, Bool-cases, inl, inr, ap,
  ◌∙◌, sym,
}
use spectral_cloud.Prelude.Int.{pos, ltb_ℤ}
use spectral_cloud.Prelude.Clock.{Time, add_time, seconds, seconds_in_range, max_seconds}
use spectral_cloud.Prelude.Dict.{Dict, lookup, insert, keys, lookup-insert}
use spectral_cloud.Prelude.Sweep.{sweep-keeps}
use spectral_cloud.Agent.{
  Agent, AgentError, agent_not_found, Registry, RegisterRequest, is_gone, register, heartbeat, get,
  agent_key, find_live, change_live, or_empty, deadline, registered,
}
use spectral_cloud.Agent.Listing.{
  list, list_by_capability, list_by_selector, find_best, prune, prune_round,
}
use spectral_cloud.Agent.Live.{alive, alive_at, SameLive, find_live-SameLive, remove_gone}
use spectral_cloud.Agent.Listed.{list-shown}

pub find_live_eq :
    (r : Registry) (key : String) (now : Time) → (find_live r key now).1 ≡ alive_at now r key
unfolding find_live
find_live_eq r key now = elim (Option-cases (lookup key r.agents)) [
  | inl e ↦ rw (e, find_live) refl
  | inr (a, e) ↦ elim (Bool-cases (is_gone now a)) [
    | inl g ↦ rw (e, find_live) (rw (g, find_live) refl)
    | inr g ↦ rw (e, find_live) (rw (g, find_live) refl)
  ]
]

prune_round-SameLive :
    (now : Time) (st : Registry × ℕ) (key : String) → SameLive now st.0 (prune_round now st key).0
unfolding prune_round
prune_round-SameLive now (r, n) key later k h = elim (Option-cases (lookup key r.agents)) [
  | inl e ↦ rw (e, prune_round) refl
  | inr (a, e) ↦ elim (Bool-cases (is_gone now a)) [
    | inl g ↦ rw (e, prune_round) (rw (g, prune_round) (remove_gone now later r key k a e g h))
    | inr g ↦ rw (e, prune_round) (rw (g, prune_round) refl)
  ]
]

list_by_capability_state :
    (r : Registry) (tenant_id capability : String) (now : Time)
    → (list_by_capability r tenant_id capability now).0 ≡ (list r tenant_id now).0
unfolding list_by_capability
list_by_capability_state r tenant_id capability now = elim (Bool-cases (capability == "")) [
  | inl e ↦ rw (e, list_by_capability) refl
  | inr e ↦ rw (e, list_by_capability) refl
]

list_by_selector_state :
    (r : Registry) (tenant_id : String) (selector : Dict String) (now : Time)
    → (list_by_selector r tenant_id selector now).0 ≡ (list r tenant_id now).0
unfolding list_by_selector
list_by_selector_state r tenant_id selector now = elim (Bool-cases (eqb (length selector) 0)) [
  | inl e ↦ rw (e, list_by_selector) refl
  | inr e ↦ rw (e, list_by_selector) refl
]

find_best_state :
    (r : Registry) (tenant_id capability : String) (now : Time)
    → (find_best r tenant_id capability now).0 ≡ (list r tenant_id now).0
unfolding find_best
find_best_state r tenant_id capability now = list_by_capability_state r tenant_id capability now

-- `Get`, the three listings, `FindBest` and `Prune` delete what has expired; no later read sees
-- it: at their own time and at every later one, each key has the living agent that it had.
pub reads-SameLive :
    (r : Registry) (tenant_id id capability : String) (selector : Dict String) (now : Time)
    → SameLive now r (get r tenant_id id now).0
      × SameLive now r (list r tenant_id now).0
      × SameLive now r (list_by_capability r tenant_id capability now).0
      × SameLive now r (list_by_selector r tenant_id selector now).0
      × SameLive now r (find_best r tenant_id capability now).0
      × SameLive now r (prune r now).0
unfolding get prune
reads-SameLive r tenant_id id capability selector now =
    let listed = (list-shown r tenant_id now).1 in
    (
      find_live-SameLive now r (agent_key tenant_id id),
      listed,
      subst (SameLive now r) (sym (list_by_capability_state r tenant_id capability now)) listed,
      subst (SameLive now r) (sym (list_by_selector_state r tenant_id selector now)) listed,
      subst (SameLive now r) (sym (find_best_state r tenant_id capability now)) listed,
      sweep-keeps (prune_round now) (λ st. SameLive now r st.0)
          (λ st k same later j h. prune_round-SameLive now st k later j h ∙ same later j h)
          (keys r.agents) (r, 0) (λ later k h. refl),
    )

-- The agent that a registration stores.
abbrev pub stored : Registry → RegisterRequest → Time → Agent
stored r req now = record {
  id = req.id;
  tenant_id = req.tenant_id;
  addr = req.addr;
  status = if req.status == "" then "unknown" else req.status;
  tags = or_empty req.tags;
  capabilities = or_empty req.capabilities;
  registered_at = registered now (lookup (agent_key req.tenant_id req.id) r.agents);
  last_seen = now;
  expires_at = deadline req.ttl_seconds now none;
}

register_eq :
    (r : Registry) (req : RegisterRequest) (now : Time)
    → req.id ≢ ""
    → req.tenant_id ≢ ""
    → (register r req now).0
      ≡ record { agents = insert (agent_key req.tenant_id req.id) (stored r req now) r.agents }
unfolding register
register_eq r req now named owned =
    let a : (req.id == "") ≡ false = ground (arith, eq_iff req.id "", named) in
    let b : (req.tenant_id == "") ≡ false = ground (arith, eq_iff req.tenant_id "", owned) in
    rw (a, register) (rw (b, register) refl)

-- After a registration, `Get` finds that agent under its own key as long as it has not expired,
-- and under every other key what it found before.
pub get-register :
    (r : Registry) (req : RegisterRequest) (tenant_id id : String) (now later : Time)
    → req.id ≢ ""
    → req.tenant_id ≢ ""
    → (get (register r req now).0 tenant_id id later).1 ≡ (
        if agent_key tenant_id id == agent_key req.tenant_id req.id
        then alive later (some (stored r req now))
        else (get r tenant_id id later).1)
unfolding get
get-register r req tenant_id id now later named owned =
    let key = agent_key tenant_id id in
    let mine = agent_key req.tenant_id req.id in
    let entry = lookup-insert mine key (stored r req now) r.agents in
    find_live_eq (register r req now).0 key later
    ∙ ap (λ s. alive_at later s key) (register_eq r req now named owned)
    ∙ ap (alive later) entry
    ∙ branch (key == mine)
  where
    branch :
        (b : Bool)
        → alive later
            (if b then some (stored r req now) else lookup (agent_key tenant_id id) r.agents)
          ≡ (if b then alive later (some (stored r req now)) else (get r tenant_id id later).1)
    branch true = refl
    branch false = sym (find_live_eq r (agent_key tenant_id id) later)

find_live_cases :
    (r : Registry) (key : String) (now : Time)
    → ((find_live r key now).1 ≡ none) ⊎ ((a : Agent) × (find_live r key now ≡ (r, some a)))
unfolding find_live
find_live_cases r key now = elim (Option-cases (lookup key r.agents)) [
  | inl e ↦ inl (rw (e, find_live) refl)
  | inr (a, e) ↦ elim (Bool-cases (is_gone now a)) [
    | inl g ↦ inl (rw (e, find_live) (rw (g, find_live) refl))
    | inr g ↦ inr (a, rw (e, find_live) (rw (g, find_live) refl))
  ]
]

abbrev pub applied :
    String → (Agent → Agent) → Registry × Option Agent → Registry × Option AgentError
applied key change (s, none) = (s, some agent_not_found)
applied key change (s, some a) = (record { agents = insert key (change a) s.agents }, none)

pub applied_eq :
    (r : Registry) (key : String) (change : Agent → Agent) (now : Time)
    → (change_live r key change now).0 ≡ (applied key change (find_live r key now)).0
unfolding change_live
applied_eq r key change now = refl

change_live_eq :
    (r : Registry) (key : String) (change : Agent → Agent) (now : Time)
    → (change_live r key change now).1 ≡ none
    → (a : Agent) × ((change_live r key change now).0
        ≡ record { agents = insert key (change a) r.agents })
unfolding change_live
change_live_eq r key change now ok = elim (find_live_cases r key now) [
  | inl e ↦ absurd (ground (arith, e, ok))
  | inr (a, e) ↦ (a, applied_eq r key change now ∙ ap (λ p. (applied key change p).0) e)
]

over_iff :
    (a : Agent) (end later : Time)
    → a.expires_at ≡ some end
    → (alive later (some a) ≡ none) ↔ (end < later)
over_iff a end later e = (λ h. ground (arith, e, h), λ h. ground (arith, e, h))

-- A heartbeat with a time to live of `n` seconds, `n` from 1 to 9223372036, that finds its agent keeps
-- it for just so long: a later `Get` without another call finds it until the time is over, and not
-- after that.
pub get-heartbeat :
    (r : Registry) (tenant_id id : String) (n : ℕ) (now later : Time)
    → (heartbeat r tenant_id id (pos n) now).1 ≡ none
    → 0 < n
    → n ≤ max_seconds
    → ((get (heartbeat r tenant_id id (pos n) now).0 tenant_id id later).1 ≡ none)
      ↔ (now + n * 1_000_000_000 < later)
unfolding get heartbeat add_time
get-heartbeat r tenant_id id n now later ok some_time small =
    let key = agent_key tenant_id id in
    let beat : Agent → Agent =
      λ a. record a { last_seen = now; expires_at = deadline (pos n) now a.expires_at } in
    let (a, e) = change_live_eq r key beat now ok in
    let there : lookup key (insert key (beat a) r.agents) ≡ some (beat a) =
      lookup-insert key key (beat a) r.agents ∙ rw (eq_refl key) refl in
    let found : (get (heartbeat r tenant_id id (pos n) now).0 tenant_id id later).1
        ≡ alive later (some (beat a)) =
      find_live_eq (heartbeat r tenant_id id (pos n) now).0 key later
      ∙ ap (λ s. alive_at later s key) e
      ∙ ap (alive later) there in
    let lasts : ltb_ℤ (pos 0) (pos n) ≡ true = ground (arith, some_time) in
    let lease : deadline (pos n) now a.expires_at ≡ some (now + n * 1_000_000_000) =
      ap (λ b. if b then some (add_time now (seconds (pos n))) else a.expires_at) lasts
      ∙ ap (λ d. some (add_time now d)) (seconds_in_range n small) in
    let (there, back) = over_iff (beat a) (now + n * 1_000_000_000) later lease in
    (λ h. there (sym found ∙ h), λ h. found ∙ back h)
