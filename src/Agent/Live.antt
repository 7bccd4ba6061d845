-- ===== src/Agent/Live.antt =====
-- pkg/agent/agent.go: the agents that are alive at a time, and the reads that leave them alone.
use spectral_cloud.Prelude.{
  ◌≤◌, String, ◌≡◌, refl, true, not, Option, none, some, List, [], ◌∷◌, ◌++◌, ◌==◌, ◌&&◌, arith,
  eq_iff, if◌then◌else◌, Option-cases, Bool-cases, inl, inr, ap,
}
use spectral_cloud.Prelude.Clock.{Time, passed}
use spectral_cloud.Prelude.Dict.{lookup, remove, lookup-remove}
use spectral_cloud.Agent.{Agent, Registry, is_gone, find_live}
use spectral_cloud.Agent.Listing.{list_round}

-- An entry at a time: an expired agent counts as none.
abbrev pub alive : Time → Option Agent → Option Agent
alive now none = none
alive now (some a) = if is_gone now a then none else some a

abbrev pub alive_at : Time → Registry → String → Option Agent
alive_at now r k = alive now (lookup k r.agents)

-- Every key has the same living agent in both, at this time and later.
abbrev pub SameLive : Time → Registry → Registry → Type 0
SameLive now r s =
    (later : Time) (k : String) → now ≤ later → alive_at later s k ≡ alive_at later r k

gone_later :
    (o : Option Time) (now later : Time) → now ≤ later → passed o now ≡ true → passed o later ≡ true
gone_later none now later h e = absurd (ground arith)
gone_later (some t) now later h e = ground arith

pub remove_gone :
    (now later : Time) (r : Registry) (key k : String) (a : Agent)
    → lookup key r.agents ≡ some a
    → is_gone now a ≡ true
    → now ≤ later
    → alive_at later (record { agents = remove key r.agents }) k ≡ alive_at later r k
remove_gone now later r key k a e g h =
    let still = gone_later a.expires_at now later h g in
    ground (arith, lookup-remove key k r.agents, eq_iff k key, e, still)

pub find_live-SameLive :
    (now : Time) (r : Registry) (key : String) → SameLive now r (find_live r key now).0
unfolding find_live
find_live-SameLive now r key later k h = elim (Option-cases (lookup key r.agents)) [
  | inl e ↦ rw (e, find_live) refl
  | inr (a, e) ↦ elim (Bool-cases (is_gone now a)) [
    | inl g ↦ rw (e, find_live) (rw (g, find_live) (remove_gone now later r key k a e g h))
    | inr g ↦ rw (e, find_live) (rw (g, find_live) refl)
  ]
]

-- What a round of `List` adds for an entry.
abbrev pub shown : String → Option Agent → List Agent
shown tenant_id none = []
shown tenant_id (some a) =
    if not (tenant_id == "") && not (a.tenant_id == tenant_id) then [] else a ∷ []

pub list_round-SameLive :
    (tenant_id : String) (now : Time) (r : Registry) (out : List Agent) (key : String)
    → SameLive now r (list_round tenant_id now (r, out) key).0
unfolding list_round
list_round-SameLive tenant_id now r out key later k h = elim (Option-cases (lookup key r.agents)) [
  | inl e ↦ rw (e, list_round) refl
  | inr (a, e) ↦ elim (Bool-cases (is_gone now a)) [
    | inl g ↦ rw (e, list_round) (rw (g, list_round) (remove_gone now later r key k a e g h))
    | inr g ↦ elim (Bool-cases (not (tenant_id == "") && not (a.tenant_id == tenant_id))) [
      | inl t ↦ rw (e, list_round) (rw (g, list_round) (rw (t, list_round) refl))
      | inr t ↦ rw (e, list_round) (rw (g, list_round) (rw (t, list_round) refl))
    ]
  ]
]

pub append_nil : (xs : List Agent) → xs ≡ xs ++ []
append_nil [] = refl
append_nil (x ∷ xs) = ap (◌∷◌ x) (append_nil xs)

pub list_round-shown :
    (tenant_id : String) (now : Time) (r : Registry) (out : List Agent) (key : String)
    → (list_round tenant_id now (r, out) key).1 ≡ out ++ shown tenant_id (alive_at now r key)
unfolding list_round
list_round-shown tenant_id now r out key = elim (Option-cases (lookup key r.agents)) [
  | inl e ↦ rw (e, list_round) (append_nil out)
  | inr (a, e) ↦ elim (Bool-cases (is_gone now a)) [
    | inl g ↦ rw (e, list_round) (rw (g, list_round) (append_nil out))
    | inr g ↦ elim (Bool-cases (not (tenant_id == "") && not (a.tenant_id == tenant_id))) [
      | inl t ↦ rw (e, list_round) (rw (g, list_round) (rw (t, list_round) (append_nil out)))
      | inr t ↦ rw (e, list_round) (rw (g, list_round) (rw (t, list_round) refl))
    ]
  ]
]
