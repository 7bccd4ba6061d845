-- ===== src/Circuit/Agents.antt =====
-- pkg/circuit/circuit.go: the breakers of different agents, and the list of all of them.
use spectral_cloud.Prelude.{
  String, ◌≡◌, ◌≢◌, refl, List, [], ◌∷◌, arith, eq_iff, eq_refl, some, ap, All, map, ◌∙◌,
}
use spectral_cloud.Prelude.Clock.{Time}
use spectral_cloud.Prelude.Dict.{
  Dict, lookup, lookup-insert, lookup-remove, insert_self, Bound, keys, keys-Bound,
}
use spectral_cloud.Prelude.Int.{pos}
use spectral_cloud.Prelude.Distinct.{Distinct}
use spectral_cloud.Circuit.{
  get_or_create, snapshot, Breaker, Manager, Call, succeeds, fails, asks, resets, gets, deletes,
  store_breaker, get, delete, list, list_ids, step, run,
}

-- Two managers that cannot be told apart by calls on agent `j`.
record SameFor (j : String) (m n : Manager) : Type 0 where
  entry : lookup j m.breakers ≡ lookup j n.breakers
  threshold : m.threshold ≡ n.threshold
  timeout : m.reset_timeout ≡ n.reset_timeout

store_breaker-SameFor :
    (m : Manager) (id j : String) (b : Breaker) → id ≢ j → SameFor j (store_breaker m id b) m
unfolding store_breaker
store_breaker-SameFor m id j b h = record {
  entry = ground (arith, lookup-insert id j b m.breakers, eq_iff j id);
  threshold = refl;
  timeout = refl;
}

delete-SameFor : (m : Manager) (id j : String) → id ≢ j → SameFor j (delete m id) m
unfolding delete
delete-SameFor m id j h = record {
  entry = ground (arith, lookup-remove id j m.breakers, eq_iff j id);
  threshold = refl;
  timeout = refl;
}

step-SameFor :
    (m : Manager) (c : Time × String × Call) (j : String) → c.1 ≢ j → SameFor j (step m c) m
unfolding step
step-SameFor m (now, id, succeeds) j h = store_breaker-SameFor m id j _ h
step-SameFor m (now, id, fails) j h = store_breaker-SameFor m id j _ h
step-SameFor m (now, id, asks) j h = store_breaker-SameFor m id j _ h
step-SameFor m (now, id, resets) j h = store_breaker-SameFor m id j _ h
step-SameFor m (now, id, gets) j h = store_breaker-SameFor m id j _ h
step-SameFor m (now, id, deletes) j h = delete-SameFor m id j h

get_of_SameFor : (j : String) (m n : Manager) → SameFor j m n → (get m j).1 ≡ (get n j).1
unfolding get
get_of_SameFor j m n s = ground (arith, s.entry, s.threshold, s.timeout)

-- Calls on other agents, whatever they are, leave the snapshot of agent `j` as it was.
pub get-run_ne :
    (m : Manager) (cs : List (Time × String × Call)) (j : String)
    → All (λ c. c.1 ≢ j) cs
    → (get (run m cs) j).1 ≡ (get m j).1
unfolding run
get-run_ne m [] j h = refl
get-run_ne m (c ∷ cs) j h =
    get-run_ne (step m c) cs j h.1 ∙ get_of_SameFor j (step m c) m (step-SameFor m c j h.0)

get-Bound : (m : Manager) (id : String) → Bound m.breakers id → (get m id).0 ≡ m
unfolding get
get-Bound m id (b, e) = ground (arith, e, insert_self id b m.breakers)

list_ids-Bound :
    (m : Manager) (ids : List String)
    → All (Bound m.breakers) ids
    → list_ids m ids ≡ (m, map (λ id. (get m id).1) ids)
unfolding list_ids
list_ids-Bound m [] h = refl
list_ids-Bound m (id ∷ ids) h = rw (get-Bound m id h.0) (rw (list_ids-Bound m ids h.1))

-- The snapshot of what a key holds.
get-lookup :
    (m : Manager) (id : String) (b : Breaker)
    → lookup id m.breakers ≡ some b
    → (get m id).1 ≡ record b { reset_timeout = pos 0 }
unfolding get get_or_create snapshot
get-lookup m id b e = rw (e, get_or_create) refl

snapshots :
    (m : Manager) (es : Dict Breaker)
    → Distinct es
    → ((id : String) (b : Breaker) → lookup id es ≡ some b → lookup id m.breakers ≡ some b)
    → map (λ id. (get m id).1) (keys es) ≡ map (λ e. record e.1 { reset_timeout = pos 0 }) es
unfolding lookup
snapshots m [] d within = refl
snapshots m ((k, b) ∷ es) d within =
    let here : lookup k ((k, b) ∷ es) ≡ some b = ground (arith, eq_refl k) in
    let first = get-lookup m k b (within k b here) in
    let rest = snapshots m es d.1 (λ id c e. within id c (ground (arith, e, d.0, eq_iff id k))) in
    ap (λ x. x ∷ map (λ id. (get m id).1) (keys es)) first
    ∙ ap (◌∷◌ (record b { reset_timeout = pos 0 })) rest

-- Over a map with one breaker for each key, `List` leaves the manager as it is, though it calls the
-- `Get` that can make a breaker, and returns each stored breaker once, with the identifier, state,
-- counts, threshold and times that are stored, and the reset timeout set to zero.
pub list_lem :
    (m : Manager)
    → Distinct m.breakers
    → list m ≡ (m, map (λ e. record e.1 { reset_timeout = pos 0 }) m.breakers)
unfolding list
list_lem m d =
    list_ids-Bound m (keys m.breakers) (keys-Bound m.breakers)
    ∙ ap (λ bs. (m, bs)) (snapshots m m.breakers d (λ id b e. e))
