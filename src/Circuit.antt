-- ===== src/Circuit.antt =====
-- pkg/circuit/circuit.go: one circuit breaker for each agent. The time of a call is an argument.
-- `time.Since` saturates after 292 years; the difference here is exact.
pub mod Invariant
pub mod Trips
pub mod Agents
pub mod Examples
use spectral_cloud.Prelude.{
  ℕ, String, Bool, true, false, Option, none, some, List, [], ◌∷◌, ◌&&◌, if◌then◌else◌,
}
use spectral_cloud.Prelude.Int.{ℤ, pos, sub_ℕ, leb_ℤ, incr}
use spectral_cloud.Prelude.Clock.{Time, Duration}
use spectral_cloud.Prelude.Dict.{Dict, lookup, insert, remove, keys}

pub data State : Type 0 where
  closed open_circuit half_open : State

pub record Breaker : Type 0 where
  pub agent_id : String
  pub state : State
  pub failures : ℤ
  pub successes : ℤ
  pub threshold : ℤ
  pub reset_timeout : Duration
  pub opened_at : Option Time
  pub last_failure : Option Time

pub record Manager : Type 0 where
  pub breakers : Dict Breaker
  pub threshold : ℤ
  pub reset_timeout : Duration

unfoldable pub new : ℤ → Duration → Manager
new threshold reset_timeout = record {
  breakers = [];
  threshold = if leb_ℤ threshold (pos 0) then pos 5 else threshold;
  reset_timeout = if leb_ℤ reset_timeout (pos 0) then pos 30_000_000_000 else reset_timeout;
}

unfoldable pub fresh : Manager → String → Breaker
fresh m id = record {
  agent_id = id;
  state = closed;
  failures = pos 0;
  successes = pos 0;
  threshold = m.threshold;
  reset_timeout = m.reset_timeout;
  opened_at = none;
  last_failure = none;
}

-- The breaker that `getOrCreate` returns; a new one is stored by `store_breaker`.
unfoldable pub get_or_create : Manager → String → Breaker
unfolding fresh
get_or_create m id = elim (lookup id m.breakers) [ none ↦ fresh m id | some b ↦ b ]

unfoldable pub store_breaker : Manager → String → Breaker → Manager
store_breaker m id b = record m { breakers = insert id b m.breakers }

abbrev is_half_open : State → Bool
is_half_open half_open = true
is_half_open _ = false

abbrev is_closed : State → Bool
is_closed closed = true
is_closed _ = false

-- The critical sections of the handlers, over the breaker that they lock.
unfoldable pub succeed : Breaker → Breaker
succeed b =
    let c = record b { successes = incr b.successes; failures = pos 0 } in
    if is_half_open b.state then record c { state = closed; opened_at = none } else c

unfoldable pub fail : Time → Breaker → Breaker
fail now b =
    let c = record b { failures = incr b.failures; last_failure = some now } in
    let tripped = record c { state = open_circuit; opened_at = some now } in
    if is_closed b.state && leb_ℤ b.threshold c.failures
    then tripped
    else if is_half_open b.state
    then tripped
    else c

abbrev elapsed : Option Time → Duration → Time → Bool
elapsed none timeout now = false
elapsed (some t) timeout now = leb_ℤ timeout (sub_ℕ now t)

abbrev admit_in : State → Time → Breaker → Breaker × Bool
admit_in closed now b = (b, true)
admit_in open_circuit now b =
    if elapsed b.opened_at b.reset_timeout now
    then (record b { state = half_open }, true)
    else (b, false)
admit_in half_open now b = (b, true)

unfoldable pub admit : Time → Breaker → Breaker × Bool
admit now b = admit_in b.state now b

unfoldable pub close : Breaker → Breaker
close b = record b { state = closed; failures = pos 0; opened_at = none }

-- The snapshot leaves `ResetTimeout` at its zero value.
unfoldable pub snapshot : Breaker → Breaker
snapshot b = record b { reset_timeout = pos 0 }

unfoldable pub record_success : Manager → String → Manager
unfolding get_or_create store_breaker succeed
record_success m id = store_breaker m id (succeed (get_or_create m id))

unfoldable pub record_failure : Manager → String → Time → Manager × State
unfolding get_or_create store_breaker fail
record_failure m id now = let b = fail now (get_or_create m id) in (store_breaker m id b, b.state)

unfoldable pub allow : Manager → String → Time → Manager × Bool
unfolding get_or_create store_breaker admit
allow m id now =
    let (b, allowed) = admit now (get_or_create m id) in (store_breaker m id b, allowed)

unfoldable pub reset : Manager → String → Manager
unfolding get_or_create store_breaker close
reset m id = store_breaker m id (close (get_or_create m id))

unfoldable pub get : Manager → String → Manager × Breaker
unfolding get_or_create store_breaker snapshot
get m id = let b = get_or_create m id in (store_breaker m id b, snapshot b)

unfoldable pub delete : Manager → String → Manager
delete m id = record m { breakers = remove id m.breakers }

-- `List` calls `Get` for each id that it found.
unfoldable pub list_ids : Manager → List String → Manager × List Breaker
list_ids m [] = (m, [])
list_ids m (id ∷ ids) = let (m', b) = get m id in let (n, bs) = list_ids m' ids in (n, b ∷ bs)

unfoldable pub list : Manager → Manager × List Breaker
unfolding list_ids get
list m = list_ids m (keys m.breakers)

-- The calls of a client, and a history of them.
pub data Call : Type 0 where
  succeeds fails asks resets gets deletes : Call

unfoldable pub step : Manager → Time × String × Call → Manager
unfolding record_success record_failure allow reset get delete
step m (now, id, succeeds) = record_success m id
step m (now, id, fails) = (record_failure m id now).0
step m (now, id, asks) = (allow m id now).0
step m (now, id, resets) = reset m id
step m (now, id, gets) = (get m id).0
step m (now, id, deletes) = delete m id

unfoldable pub run : Manager → List (Time × String × Call) → Manager
unfolding step
run m [] = m
run m (c ∷ cs) = run (step m c) cs
