-- ===== src/Circuit/Examples.antt =====
-- Tests of the circuit breaker, and its theorems at concrete inputs.
use spectral_cloud.Prelude.{
  ◌≤◌, ◌+◌, String, ◌≡◌, ◌≢◌, refl, true, none, some, List, [], ◌∷◌, arith, eq_iff, inr, leb, map,
}
use spectral_cloud.Prelude.Int.{pos, incr}
use spectral_cloud.Prelude.Clock.{Time}
use spectral_cloud.Prelude.Dict.{lookup, insert, remove}
use spectral_cloud.Prelude.Distinct.{Distinct}
use spectral_cloud.Circuit.{
  closed, open_circuit, half_open, Manager, Call, fails, asks, resets, deletes, new, get_or_create,
  record_success, record_failure, allow, get, list, run,
}
use spectral_cloud.Circuit.Invariant.{Holds, run-new-Holds}
use spectral_cloud.Circuit.Trips.{
  failing, failing-state, Trips, timeout_of, trip_cycle, answers, half_open_unlimited,
}
use spectral_cloud.Circuit.Agents.{get-run_ne, list_lem}

abbrev start : Manager
start = record { breakers = []; threshold = pos 2; reset_timeout = pos 100 }

-- One failure has been counted.
abbrev history : List (Time × String × Call)
history = (5, "a", fails) ∷ (6, "b", asks) ∷ (7, "a", fails) ∷ (8, "b", deletes) ∷ []

defaults : (new (pos 0) (pos 0)).threshold ≡ pos 5
unfolding new
defaults = refl

run_opens : (get (run start history) "a").1.state ≡ open_circuit
unfolding run get lookup insert remove incr
run_opens = refl

run-new-Holds_example : Holds (run (new (pos 2) (pos 100)) history)
run-new-Holds_example = run-new-Holds (pos 2) (pos 100) history (omega arith)

failing-state_example :
    (get_or_create (run (new (pos 2) (pos 100)) (failing "a" (1 ∷ 2 ∷ 3 ∷ []))) "a").state
    ≡ open_circuit
failing-state_example = failing-state 2 (pos 100) "a" (1 ∷ 2 ∷ 3 ∷ []) (omega arith) (omega arith)

abbrev once : Manager
once = record {
  breakers =
      (
        "a",
        record {
          agent_id = "a";
          state = closed;
          failures = pos 1;
          successes = pos 0;
          threshold = pos 2;
          reset_timeout = pos 100;
          opened_at = none;
          last_failure = some 5;
        },
      )
      ∷ [];
  threshold = pos 2;
  reset_timeout = pos 100;
}

once-Trips : Trips once "a" 7
unfolding get_or_create lookup incr
once-Trips = inr (refl, omega arith)

once_timeout : timeout_of once "a" ≡ pos 100
unfolding get_or_create lookup
once_timeout = refl

trip_cycle_example :
    let (m1, s) = record_failure once "a" 7 in
    let (m2, allowed) = allow m1 "a" 110 in
    (s ≡ open_circuit)
    × (allowed ≡ leb (7 + 100) 110)
    × (7 + 100 ≤ 110
        → ((get_or_create m2 "a").state ≡ half_open)
          × ((record_failure m2 "a" 111).1 ≡ open_circuit)
          × ((get_or_create (record_success m2 "a") "a").state ≡ closed)
          × ((get_or_create (record_success m2 "a") "a").failures ≡ pos 0))
trip_cycle_example = trip_cycle once "a" 7 110 111 100 once-Trips once_timeout

half_open_unlimited_example :
    answers (record_failure once "a" 7).0 "a" (110 ∷ 111 ∷ 112 ∷ []) ≡ true ∷ true ∷ true ∷ []
half_open_unlimited_example =
    half_open_unlimited once "a" 7 110 (111 ∷ 112 ∷ []) 100 once-Trips once_timeout (omega arith)

a_not_b : ◌≢◌ {A = String} "a" "b"
a_not_b = ground (arith, eq_iff "a" "b")

get-run_ne_example :
    (get (run once ((8, "a", fails) ∷ (9, "a", resets) ∷ [])) "b").1 ≡ (get once "b").1
get-run_ne_example =
    get-run_ne once ((8, "a", fails) ∷ (9, "a", resets) ∷ []) "b" (a_not_b, (a_not_b, tt))

-- The breaker of "a" with one failure, and one of "b" like it.
abbrev twice_seen : Manager
twice_seen = record once {
  breakers =
      ("a", get_or_create once "a")
      ∷ ("b", record (get_or_create once "a") { agent_id = "b" })
      ∷ [];
}

twice_seen-Distinct : Distinct twice_seen.breakers
unfolding lookup
twice_seen-Distinct = (refl, (refl, tt))

list_lem_example :
    list twice_seen
    ≡ (twice_seen, map (λ e. record e.1 { reset_timeout = pos 0 }) twice_seen.breakers)
list_lem_example = list_lem twice_seen twice_seen-Distinct
