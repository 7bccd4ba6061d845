-- ===== src/Circuit/Invariant.antt =====
-- pkg/circuit/circuit.go: the state of a breaker between two calls.
use spectral_cloud.Prelude.{
  String, ◌≡◌, ◌≢◌, none, some, List, [], ◌∷◌, arith, eq_iff, Option-cases, inl, inr,
}
use spectral_cloud.Prelude.Int.{ℤ, pos, ◌≤ℤ◌, ◌<ℤ◌, half_word, incr}
use spectral_cloud.Prelude.Clock.{Time, Duration}
use spectral_cloud.Prelude.Dict.{lookup, lookup-nil, lookup-insert, lookup-remove}
use spectral_cloud.Circuit.{
  closed, Breaker, Manager, Call, succeeds, fails, asks, resets, gets, deletes, new, fresh,
  get_or_create, store_breaker, succeed, fail, admit, close, delete, step, run,
}

-- A threshold is a positive `int`; a closed breaker counts below its threshold and has no opening
-- time; any other breaker has one.
pub record IsSound (b : Breaker) : Type 0 where
  pub positive : pos 0 <ℤ b.threshold
  pub in_range : b.threshold <ℤ pos half_word
  pub counts : b.state ≡ closed → (pos 0 ≤ℤ b.failures) × (b.failures <ℤ b.threshold)
  pub idle : b.state ≡ closed → b.opened_at ≡ none
  pub opened : b.state ≢ closed → b.opened_at ≢ none

incr-below :
    (x t : ℤ) → pos 0 ≤ℤ x → x <ℤ t → t <ℤ pos half_word → (pos 0 ≤ℤ incr x) × (incr x ≤ℤ t)
unfolding incr
incr-below x t h k l = ground arith

succeed-IsSound : (b : Breaker) → IsSound b → IsSound (succeed b)
unfolding succeed
succeed-IsSound b v = ground arith

pub fail-IsSound : (now : Time) (b : Breaker) → IsSound b → IsSound (fail now b)
unfolding fail
fail-IsSound now b v = ground (arith, incr-below b.failures b.threshold)

admit-IsSound : (now : Time) (b : Breaker) → IsSound b → IsSound (admit now b).0
unfolding admit
admit-IsSound now b v = ground arith

close-IsSound : (b : Breaker) → IsSound b → IsSound (close b)
unfolding close
close-IsSound b v = ground arith

pub record Holds (m : Manager) : Type 0 where
  pub positive : pos 0 <ℤ m.threshold
  pub in_range : m.threshold <ℤ pos half_word
  pub each : (id : String) (b : Breaker) → lookup id m.breakers ≡ some b → IsSound b

pub new-Holds :
    (threshold : ℤ) (timeout : Duration)
    → threshold <ℤ pos half_word
    → Holds (new threshold timeout)
unfolding new
new-Holds threshold timeout h = record {
  positive = ground arith;
  in_range = ground arith;
  each = λ id b e. cc (lookup-nil {V = Breaker} id);
}

fresh-IsSound : (m : Manager) (id : String) → Holds m → IsSound (fresh m id)
unfolding fresh
fresh-IsSound m id v = ground arith

pub get_or_create-IsSound : (m : Manager) (id : String) → Holds m → IsSound (get_or_create m id)
unfolding get_or_create
get_or_create-IsSound m id v = elim (Option-cases (lookup id m.breakers)) [
  | inl e ↦ rw (e, get_or_create) (fresh-IsSound m id v)
  | inr (b, e) ↦ rw (e, get_or_create) (v.each id b e)
]

store_breaker-Holds :
    (m : Manager) (id : String) (b : Breaker) → IsSound b → Holds m → Holds (store_breaker m id b)
unfolding store_breaker
store_breaker-Holds m id b s v = record {
  positive = v.positive;
  in_range = v.in_range;
  each = λ j c e. ground (arith, lookup-insert id j b m.breakers, eq_iff j id, v.each j c);
}

delete-Holds : (m : Manager) (id : String) → Holds m → Holds (delete m id)
unfolding delete
delete-Holds m id v = record {
  positive = v.positive;
  in_range = v.in_range;
  each = λ j c e. ground (arith, lookup-remove id j m.breakers, v.each j c);
}

-- Every call, on any agent at any time, keeps the breakers sound.
pub step-Holds : (m : Manager) (c : Time × String × Call) → Holds m → Holds (step m c)
unfolding step
step-Holds m (now, id, succeeds) v =
    store_breaker-Holds m id _ (succeed-IsSound _ (get_or_create-IsSound m id v)) v
step-Holds m (now, id, fails) v =
    store_breaker-Holds m id _ (fail-IsSound now _ (get_or_create-IsSound m id v)) v
step-Holds m (now, id, asks) v =
    store_breaker-Holds m id _ (admit-IsSound now _ (get_or_create-IsSound m id v)) v
step-Holds m (now, id, resets) v =
    store_breaker-Holds m id _ (close-IsSound _ (get_or_create-IsSound m id v)) v
step-Holds m (now, id, gets) v = store_breaker-Holds m id _ (get_or_create-IsSound m id v) v
step-Holds m (now, id, deletes) v = delete-Holds m id v

run-Holds : (m : Manager) (cs : List (Time × String × Call)) → Holds m → Holds (run m cs)
unfolding run
run-Holds m [] v = v
run-Holds m (c ∷ cs) v = run-Holds (step m c) cs (step-Holds m c v)

-- After any history of calls on a new manager whose threshold is an `int`, every breaker has a
-- positive threshold; while it is closed it counts fewer failures than that, from 0 on, and has no
-- opening time; while it is not closed it has one.
pub run-new-Holds :
    (threshold : ℤ) (timeout : Duration) (cs : List (Time × String × Call))
    → threshold <ℤ pos half_word
    → Holds (run (new threshold timeout) cs)
run-new-Holds threshold timeout cs h = run-Holds _ cs (new-Holds threshold timeout h)
