-- ===== src/AgentGroup/Examples.antt =====
-- Tests of the agent groups, and their theorems at concrete inputs.
use mathlib.Core.List.{Perm}
use spectral_cloud.Prelude.{
  ◌+◌, ◌%◌, ◌≡◌, refl, not, none, some, List, [], ◌∷◌, String, ◌==◌, ◌&&◌, arith, length, map,
  select,
}
use spectral_cloud.Prelude.Int.{incr, pos}
use spectral_cloud.Prelude.Dict.{insert, lookup}
use spectral_cloud.Persist.{Host, Codec}
use spectral_cloud.Circuit.{allow, record_failure}
use spectral_cloud.Circuit
use spectral_cloud.AgentGroup.Group.{Group, AllowFn}
use spectral_cloud.AgentGroup.{Manager, get, next}
use spectral_cloud.AgentGroup.Slots.{slots}
use spectral_cloud.AgentGroup.Rotation.{rotate}
use spectral_cloud.AgentGroup.Turns.{first_allowed, next-rotate}
use spectral_cloud.AgentGroup.Fairness.{calls, calls-rotate}

-- A store that keeps its writes in a list, newest first, and JSON that is the value itself.
abbrev memory : Host
memory = record {
  Payload = String;
  Data = Group;
  Db = List (String × String × Group);
  put = λ t k v d. (t, k, v) ∷ d;
  delete = λ t k d. select (λ e. not (e.0 == t && e.1 == k)) d;
  scan = λ t p d. some (map (λ e. e.2) (select (λ e. e.0 == t) d));
}

abbrev plain : Codec memory Group
plain = record { encode = λ g. some g; decode = λ g. some g }

abbrev pair : Group
pair = record {
  id = "grp-1";
  tenant = "t";
  name = "ocr";
  members =
      record { agent_id = "a"; weight = pos 2 } ∷ record { agent_id = "b"; weight = pos 1 } ∷ [];
  created_at = 5;
}

abbrev one : Manager memory
one = record { groups = ("grp-1", pair) ∷ []; counter = 1; rr_index = ("grp-1", 1) ∷ []; db = none }

found : get plain one "t" "grp-1" ≡ some pair
unfolding get lookup
found = refl

position : lookup "grp-1" one.rr_index ≡ some 1
unfolding lookup
position = refl

three_slots : length (slots pair.members) ≡ 3
unfolding slots
three_slots = refl

-- The circuit breakers as the filter.
abbrev through_breakers : AllowFn Circuit.Manager
through_breakers = some (λ m id. allow m id 50)

abbrev failing_a : Circuit.Manager
failing_a =
    (record_failure (record { breakers = []; threshold = pos 1; reset_timeout = pos 100 }) "a" 10).0

next-rotate_example : next plain through_breakers one failing_a "t" "grp-1" ≡ (
    let e = slots pair.members in
    let (d, chosen) = first_allowed through_breakers (rotate (1 % length e) e) failing_a in
    (record one { rr_index = insert "grp-1" (1 + 1) one.rr_index }, d, chosen))
next-rotate_example =
    next-rotate plain through_breakers one failing_a "t" "grp-1" pair 1 found position (omega arith)
      (omega (arith, three_slots)) (omega (arith, three_slots))

-- The breaker of `a` is open, so `b` is chosen.
chooses_b : (next plain through_breakers one failing_a "t" "grp-1").2 ≡ some "b"
unfolding next allow record_failure lookup insert incr
chooses_b = refl

calls-rotate_example :
    let e = slots pair.members in
    ((calls plain (length e) one "t" "grp-1").1 ≡ map some (rotate (1 % length e) e))
    × Perm (rotate (1 % length e) e) e
calls-rotate_example =
    calls-rotate plain one "t" "grp-1" pair 1 found position (omega arith) (refl, (refl, tt))
      (omega (arith, three_slots)) (omega (arith, three_slots))
