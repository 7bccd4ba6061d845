-- ===== src/Circuit/Trips.antt =====
-- pkg/circuit/circuit.go: when a breaker opens, whom it lets through, and how it closes.
use native.Mathlib.Nat.{zero-add}
use spectral_cloud.Prelude.{
  le→leb, replicate, ◌⊎◌, ◌≤◌, Bool-cases, inl, inr, ◌∙◌, String, ℕ, suc, ◌+◌, ◌≤◌, ◌<◌, String,
  ◌≡◌, refl, Bool, true, false, some, List, [], ◌∷◌, arith, eq_refl, if◌then◌else◌, inl, inr, leb,
  length, ap, ◌∙◌,
}
use spectral_cloud.Prelude.Int.{pos, ◌≤ℤ◌, half_word, incr, incr_in_range}
use spectral_cloud.Prelude.Clock.{Time, Duration}
use spectral_cloud.Prelude.Dict.{lookup-nil, lookup-insert}
use spectral_cloud.Circuit.{
  Call, fails, run, record_failure, new, Manager, closed, open_circuit, half_open, Breaker, Manager,
  Call, fails, new, fresh, get_or_create, store_breaker, succeed, fail, admit, record_success,
  record_failure, allow, run,
}

-- What `getOrCreate` finds after a breaker was stored.
pub get_or_create-store_breaker :
    (m : Manager) (id : String) (b : Breaker) → get_or_create (store_breaker m id b) id ≡ b
unfolding get_or_create store_breaker
get_or_create-store_breaker m id b = ground (arith, lookup-insert id id b m.breakers, eq_refl id)

abbrev fail_all : List Time → Breaker → Breaker
fail_all [] b = b
fail_all (t ∷ ts) b = fail_all ts (fail t b)

stays_open :
    (ts : List Time) (b : Breaker) → b.state ≡ open_circuit → (fail_all ts b).state ≡ open_circuit
stays_open [] b h = h
stays_open (t ∷ ts) b h = stays_open ts (fail t b) (unfold fail in ground arith)

opens :
    (x : Time) (k n : ℕ) (b : Breaker)
    → b.state ≡ closed
    → b.failures ≡ pos k
    → b.threshold ≡ pos n
    → k < n
    → n < half_word
    → leb n (k + 1) ≡ true
    → (fail x b).state ≡ open_circuit
unfolding fail
opens x k n b s f t h r e = ground (arith, incr_in_range k)

counts_up :
    (x : Time) (k n : ℕ) (b : Breaker)
    → b.state ≡ closed
    → b.failures ≡ pos k
    → b.threshold ≡ pos n
    → n < half_word
    → leb n (k + 1) ≡ false
    → ((fail x b).state ≡ closed)
      × ((fail x b).failures ≡ pos (k + 1))
      × ((fail x b).threshold ≡ pos n)
unfolding fail
counts_up x k n b s f t r e = ground (arith, incr_in_range k)

-- From `k` failures on, `n` more open the breaker exactly when they reach the threshold.
fail_all-state :
    (ts : List Time) (k n : ℕ) (b : Breaker)
    → b.state ≡ closed
    → b.failures ≡ pos k
    → b.threshold ≡ pos n
    → k < n
    → n < half_word
    → (fail_all ts b).state ≡ (if leb n (k + length ts) then open_circuit else closed)
fail_all-state [] k n b s f t h r = ground arith
fail_all-state (x ∷ ts) k n b s f t h r = elim (Bool-cases (leb n (k + 1))) [
  | inl e ↦ ground (arith, stays_open ts (fail x b) (opens x k n b s f t h r e))
  | inr e ↦
      let (s', f', t') = counts_up x k n b s f t r e in
      ground (arith, fail_all-state ts (k + 1) n (fail x b) s' f' t')
]

fail_all-state_fresh :
    (n : ℕ) (ts : List Time) (b : Breaker)
    → b.state ≡ closed
    → b.failures ≡ pos 0
    → b.threshold ≡ pos n
    → 0 < n
    → n < half_word
    → (fail_all ts b).state ≡ (if leb n (length ts) then open_circuit else closed)
fail_all-state_fresh n ts b s f t h r = rw zero-add at (fail_all-state ts 0 n b s f t h r)

get_or_create-new :
    (n : ℕ) (timeout : Duration) (id : String)
    → 0 < n
    → let b = get_or_create (new (pos n) timeout) id in
      (b.state ≡ closed) × (b.failures ≡ pos 0) × (b.threshold ≡ pos n)
unfolding new get_or_create fresh
get_or_create-new n timeout id h = ground (arith, lookup-nil {V = Breaker} id)

abbrev pub failing : String → List Time → List (Time × String × Call)
failing id [] = []
failing id (t ∷ ts) = (t, id, fails) ∷ failing id ts

run-failing :
    (id : String) (ts : List Time) (m : Manager)
    → get_or_create (run m (failing id ts)) id ≡ fail_all ts (get_or_create m id)
unfolding run record_failure
run-failing id [] m = refl
run-failing id (t ∷ ts) m =
    run-failing id ts (record_failure m id t).0
    ∙ ap (fail_all ts) (get_or_create-store_breaker m id (fail t (get_or_create m id)))

-- On a new manager with a threshold `n` from 1 to 2^63 - 1, a run of failures of one agent, and
-- nothing else, leaves its circuit open exactly when there are at least `n` of them, and closed
-- otherwise.
pub failing-state :
    (n : ℕ) (timeout : Duration) (id : String) (ts : List Time)
    → 0 < n
    → n < half_word
    → (get_or_create (run (new (pos n) timeout) (failing id ts)) id).state
      ≡ (if leb n (length ts) then open_circuit else closed)
failing-state n timeout id ts h r =
    let (s, f, t) = get_or_create-new n timeout id h in
    ap (λ (b : Breaker). b.state) (run-failing id ts (new (pos n) timeout))
    ∙ fail_all-state_fresh n ts _ s f t h r

-- A breaker that trips at `t`.
abbrev pub Trips : Manager → String → Time → Type 0
Trips m id t =
    let b = get_or_create m id in
    (b.state ≡ half_open) ⊎ ((b.state ≡ closed) × (b.threshold ≤ℤ incr b.failures))

abbrev pub timeout_of : Manager → String → Duration
timeout_of m id = (get_or_create m id).reset_timeout

fail-Trips :
    (m : Manager) (id : String) (t : Time)
    → Trips m id t
    → let b = fail t (get_or_create m id) in
      (b.state ≡ open_circuit) × (b.opened_at ≡ some t) × (b.reset_timeout ≡ timeout_of m id)
unfolding fail
fail-Trips m id t h = ground arith

record_failure_lem :
    (m : Manager) (id : String) (t : Time)
    → let b = fail t (get_or_create m id) in record_failure m id t ≡ (store_breaker m id b, b.state)
unfolding record_failure
record_failure_lem m id t = refl

allow_lem :
    (m : Manager) (id : String) (t : Time)
    → let r = admit t (get_or_create m id) in allow m id t ≡ (store_breaker m id r.0, r.1)
unfolding allow
allow_lem m id t = refl

record_success_lem :
    (m : Manager) (id : String)
    → record_success m id ≡ store_breaker m id (succeed (get_or_create m id))
unfolding record_success
record_success_lem m id = refl

opened_cycle :
    (b : Breaker) (t now u : Time) (d : ℕ)
    → b.state ≡ open_circuit
    → b.opened_at ≡ some t
    → b.reset_timeout ≡ pos d
    → ((admit now b).1 ≡ leb (t + d) now)
      × (t + d ≤ now
          → ((admit now b).0.state ≡ half_open)
            × ((fail u (admit now b).0).state ≡ open_circuit)
            × ((succeed (admit now b).0).state ≡ closed)
            × ((succeed (admit now b).0).failures ≡ pos 0))
unfolding admit fail succeed
opened_cycle b t now u d s o r = ground arith

-- A failure that trips a breaker at `t` is reported as open. With a reset timeout of `d` the next
-- request is let through exactly from `t + d` on. It turns the circuit half open, and then a failure
-- opens it again, and a success closes it with no failures counted.
pub trip_cycle :
    (m : Manager) (id : String) (t now u : Time) (d : ℕ)
    → Trips m id t
    → timeout_of m id ≡ pos d
    → let (m1, s) = record_failure m id t in
      let (m2, allowed) = allow m1 id now in
      (s ≡ open_circuit)
      × (allowed ≡ leb (t + d) now)
      × (t + d ≤ now
          → ((get_or_create m2 id).state ≡ half_open)
            × ((record_failure m2 id u).1 ≡ open_circuit)
            × ((get_or_create (record_success m2 id) id).state ≡ closed)
            × ((get_or_create (record_success m2 id) id).failures ≡ pos 0))
trip_cycle m id t now u d h e =
    let (s, o, r) = fail-Trips m id t h in
    let (answer, later) = opened_cycle _ t now u d s o (r ∙ e) in
    simp (record_failure_lem, allow_lem, record_success_lem, get_or_create-store_breaker)
      (s, answer, later)

-- The answers to a sequence of requests that no outcome interrupts.
abbrev pub answers : Manager → String → List Time → List Bool
answers m id [] = []
answers m id (t ∷ ts) = let (m', allowed) = allow m id t in allowed ∷ answers m' id ts

half_open-allow :
    (m : Manager) (id : String) (t : Time)
    → (get_or_create m id).state ≡ half_open
    → ((allow m id t).1 ≡ true) × ((get_or_create (allow m id t).0 id).state ≡ half_open)
half_open-allow m id t h =
    simp (allow_lem, get_or_create-store_breaker) (unfold admit in ground arith)

half_open-answers :
    (m : Manager) (id : String) (ts : List Time)
    → (get_or_create m id).state ≡ half_open
    → answers m id ts ≡ replicate (length ts) true
half_open-answers m id [] h = refl
half_open-answers m id (t ∷ ts) h =
    let (yes_t, still) = half_open-allow m id t h in
    rw yes_t (ap (◌∷◌ true) (half_open-answers (allow m id t).0 id ts still))

-- When a breaker has tripped at `t` and its reset timeout `d` has passed, any number of requests in
-- a row are let through before an outcome is recorded, at whatever times the later ones come.
pub half_open_unlimited :
    (m : Manager) (id : String) (t now : Time) (ts : List Time) (d : ℕ)
    → Trips m id t
    → timeout_of m id ≡ pos d
    → t + d ≤ now
    → answers (record_failure m id t).0 id (now ∷ ts) ≡ replicate (suc (length ts)) true
half_open_unlimited m id t now ts d h e later =
    let (_, answer, cycle) = trip_cycle m id t now t d h e in
    let (half, _, _, _) = cycle later in
    rw answer (rw (le→leb _ _ later) (ap (◌∷◌ true) (half_open-answers _ id ts half)))
