-- ===== src/Healthcheck/Effects.antt =====
-- pkg/healthcheck/healthcheck.go: what a check leaves in the registry and in the results.
use Prim.Native.String.{◌++◌ as str_append}
use spectral_cloud.Prelude.{
  String, ◌≤◌, ◌≡◌, refl, Bool, true, false, Option, none, some, ◌⊎◌, inl, inr, arith, eq_refl,
  if◌then◌else◌, ap, ◌∙◌, leb, ◌&&◌,
}
use spectral_cloud.Prelude.Int.{ℤ, pos, negsuc, pos_part}
use spectral_cloud.Prelude.Clock.{Time, passed}
use spectral_cloud.Prelude.Dict.{lookup, insert, lookup-insert}
use spectral_cloud.Agent.{Agent, Registry, agent_key, is_gone, update_status, find_live, get}
use spectral_cloud.Agent.Live.{alive, alive_at}
use spectral_cloud.Agent.Lease.{find_live_eq, applied, applied_eq}
use spectral_cloud.Healthcheck.{
  Network, Result, Checker, answer_of, ping, ping_result, check_one, is_success, new_status,
  result_for,
}

-- Whether there is an answer with a code from 200 to 299.
abbrev pub is_healthy : String ⊎ ℤ → Bool
is_healthy (inl err) = false
is_healthy (inr code) = leb 200 (pos_part code) && leb (pos_part code) 299

is_success_eq : (code : ℤ) → is_success code ≡ is_healthy (inr code)
unfolding is_success
is_success_eq (pos n) = ground arith
is_success_eq (negsuc n) = ground arith

get-update_status :
    (r : Registry) (tenant_id id status : String) (done later : Time) (stored : Agent)
    → lookup (agent_key tenant_id id) r.agents ≡ some stored
    → is_gone done stored ≡ false
    → is_gone later stored ≡ false
    → (get (update_status r tenant_id id status done).0 tenant_id id later).1
      ≡ some (record stored { status = status; last_seen = done })
unfolding get update_status find_live
get-update_status r tenant_id id status done later stored found now then_too =
    let key = agent_key tenant_id id in
    let x : Agent = record stored { status = status; last_seen = done } in
    let change : Agent → Agent = λ a. record a { status = status; last_seen = done } in
    let live : find_live r key done ≡ (r, some stored) =
      rw (found, find_live) (rw (now, find_live) refl) in
    let changed : (update_status r tenant_id id status done).0
        ≡ record { agents = insert key x r.agents } =
      applied_eq r key change done ∙ ap (λ p. (applied key change p).0) live in
    let there : lookup key (insert key x r.agents) ≡ some x =
      lookup-insert key key x r.agents ∙ rw (eq_refl key) refl in
    find_live_eq (update_status r tenant_id id status done).0 key later
    ∙ ap (λ s. alive_at later s key) changed
    ∙ ap (alive later) there
    ∙ ap (λ b. if b then none else some x) then_too

earlier :
    (o : Option Time) (done later : Time)
    → passed o later ≡ false
    → done ≤ later
    → passed o done ≡ false
earlier none done later h l = refl
earlier (some t) done later h l = ground (arith, h, l)

module _ (net : Network) where
  healthy-ping :
      (ag : Agent) (now : Time)
      → (ping net ag now).healthy ≡ is_healthy (answer_of net ag now).outcome
  unfolding ping
  healthy-ping ag now = by_outcome (answer_of net ag now).outcome
    where
      by_outcome : (o : String ⊎ ℤ) → (ping_result net ag now o).healthy ≡ is_healthy o
      by_outcome (inl err) = refl
      by_outcome (inr code) = is_success_eq code

  checked_at-ping : (ag : Agent) (now : Time) → (ping net ag now).checked_at ≡ now
  unfolding ping
  checked_at-ping ag now = by_outcome (answer_of net ag now).outcome
    where
      by_outcome : (o : String ⊎ ℤ) → (ping_result net ag now o).checked_at ≡ now
      by_outcome (inl err) = refl
      by_outcome (inr code) = refl

  -- For an agent that is stored and whose lease is not over at some time after the check, not before
  -- the time of the answer: a `Get` at that later time finds it with the status "healthy" if there
  -- was an answer with a code from 200 to 299 and "degraded" otherwise, last seen at the time of the
  -- answer in both cases. The stored result is healthy in the same case, and is dated at the start
  -- of the check.
  pub get-check_one :
      (c : Checker) (now later : Time) (ag stored : Agent)
      → lookup (agent_key ag.tenant_id ag.id) c.registry.agents ≡ some stored
      → is_gone later stored ≡ false
      → (answer_of net ag now).done ≤ later
      → (let answer = answer_of net ag now in
          let d = (check_one net (c, now) ag).0 in
          ((get d.registry ag.tenant_id ag.id later).1
            ≡ some (record stored {
              status = if is_healthy answer.outcome then "healthy" else "degraded";
              last_seen = answer.done;
            }))
          × ((r : Result) × (result_for d ag.tenant_id ag.id ≡ some r)
              × (r.healthy ≡ is_healthy answer.outcome)
              × (r.checked_at ≡ now)))
  unfolding check_one get result_for
  get-check_one c now later ag stored found lives ordered =
      let answer = answer_of net ag now in
      let p = ping net ag now in
      let h = healthy-ping ag now in
      let key = str_append ag.tenant_id (str_append "/" ag.id) in
      let r : Result = record p { tenant = ag.tenant_id } in
      (
        get-update_status c.registry ag.tenant_id ag.id (new_status net p.healthy) answer.done later
              stored found (earlier stored.expires_at answer.done later lives ordered) lives
            ∙ ap (λ b. some (record stored { status = b; last_seen = answer.done }))
                (ap (new_status net) h ∙ named (is_healthy answer.outcome)),
        (r, lookup-insert key key r c.results ∙ rw (eq_refl key) refl, h, checked_at-ping ag now),
      )
    where
      named : (b : Bool) → new_status net b ≡ (if b then "healthy" else "degraded")
      named true = refl
      named false = refl
