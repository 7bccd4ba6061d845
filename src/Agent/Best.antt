-- ===== src/Agent/Best.antt =====
-- pkg/agent/agent.go: the agent that `FindBest` returns.
use mathlib.Core.List.{Memᴰ}
use spectral_cloud.Prelude.{
  ℕ, String, ◌<◌, ◌≤◌, ◌≡◌, ◌↔◌, ◌⊎◌, refl, Bool, true, false, Option, none, some, List, [], ◌∷◌,
  ◌==◌, ◌&&◌, ◌||◌, arith, ltb, eqb, if◌then◌else◌, Bool-cases, inl, inr, ap, ◌∙◌, sym,
}
use spectral_cloud.Prelude.Clock.{Time, after}
use spectral_cloud.Prelude.Select.{mem-select}
use spectral_cloud.Agent.{Agent, Registry}
use spectral_cloud.Agent.Listing.{
  list, list_by_capability, has_capability, find_best, best_from, beats, score,
}
use spectral_cloud.Agent.Listed.{Living, of, mem-list}

-- Whether an agent of the tenant has the capability; the empty one asks for nothing.
abbrev pub offers : String → String → Agent → Bool
offers tenant_id capability a =
    of tenant_id a && (capability == "" || has_capability capability a.capabilities)

pub mem-list_by_capability :
    (r : Registry) (tenant_id capability : String) (now : Time) (a : Agent)
    → Memᴰ a (list_by_capability r tenant_id capability now).1
      ↔ (Living now r a × (offers tenant_id capability a ≡ true))
unfolding list_by_capability
mem-list_by_capability r tenant_id capability now a =
    let all = mem-list r tenant_id now a in
    elim (Bool-cases (capability == "")) [
      | inl e ↦
          rw (e, list_by_capability)
            (
              λ m. let (l, t) = all.0 m in (l, ground (arith, e, t)),
              λ (l, o). all.1 (l, ground (arith, o)),
            )
      | inr e ↦
          let s =
            mem-select (λ b. has_capability capability b.capabilities) a (list r tenant_id now).1 in
          rw (e, list_by_capability)
            (
              λ m. let (n, c) = s.0 m in let (l, t) = all.0 n in (l, ground (arith, e, t, c)),
              λ (l, o). s.1 (all.1 (l, ground (arith, o)), ground (arith, e, o)),
            )
    ]

-- The comparison of `beats` on what it reads: a score and a time.
wins : ℕ → Time → ℕ → Time → Bool
wins p t q u = ltb q p || (eqb p q && after t u)

wins_later :
    (p q o : ℕ) (t u v : Time) → wins p t q u ≡ false → wins o v q u ≡ true → wins p t o v ≡ false
unfolding wins
wins_later p q o t u v h k = ground arith

wins_asym : (p q : ℕ) (t u : Time) → wins p t q u ≡ true → wins q u p t ≡ false
unfolding wins
wins_asym p q t u h = ground arith

beats-wins :
    (a b : Agent) → beats a b ≡ wins (score a.status) a.last_seen (score b.status) b.last_seen
unfolding beats wins
beats-wins a b = refl

beats_later : (a b c : Agent) → beats a b ≡ false → beats c b ≡ true → beats a c ≡ false
beats_later a b c h k =
    beats-wins a c
    ∙ wins_later (score a.status) (score b.status) (score c.status) a.last_seen b.last_seen
        c.last_seen (sym (beats-wins a b) ∙ h) (sym (beats-wins c b) ∙ k)

beats_asym : (a b : Agent) → beats a b ≡ true → beats b a ≡ false
beats_asym a b h =
    beats-wins b a
    ∙ wins_asym (score a.status) (score b.status) a.last_seen b.last_seen (sym (beats-wins a b) ∙ h)

beats_self : (a : Agent) → beats a a ≡ false
beats_self a = elim (Bool-cases (beats a a)) [ inl h ↦ beats_asym a a h | inr h ↦ h ]

abbrev better : Agent → Agent → Agent
better a best = if beats a best then a else best

better_lem :
    (a best : Agent)
    → ((better a best ≡ a) ⊎ (better a best ≡ best))
      × ((b : Agent) → (beats b best ≡ false) ⊎ (b ≡ a) → beats b (better a best) ≡ false)
better_lem a best = elim (Bool-cases (beats a best)) [
  | inl h ↦ (
    inl (ground (arith, h)),
    λ b k. elim k [
      | inl l ↦ ap (beats b) (ground (arith, h)) ∙ beats_later b best a l h
      | inr e ↦ ap (beats b) (ground (arith, h)) ∙ ap (λ x. beats x a) e ∙ beats_self a
    ],
  )
  | inr h ↦ (
    inr (ground (arith, h)),
    λ b k. elim k [
      | inl l ↦ ap (beats b) (ground (arith, h)) ∙ l
      | inr e ↦ ap (beats b) (ground (arith, h)) ∙ ap (λ x. beats x best) e ∙ h
    ],
  )
]

-- What the loop keeps comes from the list, and nothing in the list beats it.
best_from_lem :
    (best : Agent) (xs : List Agent)
    → Memᴰ (best_from best xs) (best ∷ xs)
      × ((b : Agent) → (beats b best ≡ false) ⊎ Memᴰ b xs → beats b (best_from best xs) ≡ false)
unfolding best_from
best_from_lem best [] = (Memᴰ.head refl, λ b k. elim k [ inl l ↦ l | inr m ↦ elim m [ ] ])
best_from_lem best (a ∷ xs) =
    let (from, top) = best_from_lem (better a best) xs in
    let (which, keeps) = better_lem a best in
    (
      later a best xs which from,
      λ b k. elim k [
        | inl l ↦ top b (inl (keeps b (inl l)))
        | inr (Memᴰ.head e) ↦ top b (inl (keeps b (inr e)))
        | inr (Memᴰ.tail m) ↦ top b (inr m)
      ],
    )
  where
    later :
        (a best : Agent) (xs : List Agent) {n c : Agent}
        → (n ≡ a) ⊎ (n ≡ best)
        → Memᴰ c (n ∷ xs)
        → Memᴰ c (best ∷ a ∷ xs)
    later a best xs (inl e) (Memᴰ.head f) = Memᴰ.tail (Memᴰ.head (f ∙ e))
    later a best xs (inr e) (Memᴰ.head f) = Memᴰ.head (f ∙ e)
    later a best xs w (Memᴰ.tail m) = Memᴰ.tail (Memᴰ.tail m)

-- Of a lower state, or of the same and not seen later.
abbrev pub AtMost : Agent → Agent → Type 0
AtMost b a =
    (score b.status < score a.status)
    ⊎ ((score b.status ≡ score a.status) × (b.last_seen ≤ a.last_seen))

wins_or_at_most : (p q : ℕ) (t u : Time) → wins p t q u ≡ false → (p < q) ⊎ ((p ≡ q) × (t ≤ u))
unfolding wins
wins_or_at_most p q t u h = elim (Bool-cases (eqb p q)) [
  | inl e ↦ inr (ground (arith, e), ground (arith, e, h))
  | inr e ↦ inl (ground (arith, e, h))
]

beats-AtMost : (b a : Agent) → beats b a ≡ false → AtMost b a
beats-AtMost b a h =
    wins_or_at_most (score b.status) (score a.status) b.last_seen a.last_seen
      (sym (beats-wins b a) ∙ h)

-- The best of the agents that are alive and offer the capability, or none where there is none.
abbrev pub IsBest : Registry → String → String → Time → Option Agent → Type 0
IsBest r tenant_id capability now none =
    (a : Agent) → Living now r a → offers tenant_id capability a ≡ false
IsBest r tenant_id capability now (some a) =
    Living now r a
    × (offers tenant_id capability a ≡ true)
    × ((b : Agent) → Living now r b → offers tenant_id capability b ≡ true → AtMost b a)

best_of :
    (r : Registry) (tenant_id capability : String) (now : Time) (all : List Agent)
    → ((a : Agent) → Memᴰ a all ↔ (Living now r a × (offers tenant_id capability a ≡ true)))
    → IsBest r tenant_id capability now
        (elim all [ [] ↦ none | a ∷ rest ↦ some (best_from a rest) ])
best_of r tenant_id capability now [] h = λ a l. elim (Bool-cases (offers tenant_id capability a)) [
  | inl o ↦ absurd (elim ((h a).1 (l, o)) [ ])
  | inr o ↦ o
]
best_of r tenant_id capability now (a ∷ rest) h =
    let (from, top) = best_from_lem a rest in
    let (l, o) = (h (best_from a rest)).0 from in
    (
      l,
      o,
      λ b k p. elim ((h b).1 (k, p)) [
        | Memᴰ.head e ↦
            beats-AtMost b (best_from a rest) (top b (inl (ap (λ x. beats x a) e ∙ beats_self a)))
        | Memᴰ.tail m ↦ beats-AtMost b (best_from a rest) (top b (inr m))
      ],
    )

-- `FindBest` returns an agent that is alive under some key, is of the tenant and has the
-- capability, and such that every other such agent is of a lower state, or of the same state and not
-- seen later (healthy before degraded before the rest); it returns none where there is no such agent.
pub find_best-IsBest :
    (r : Registry) (tenant_id capability : String) (now : Time)
    → IsBest r tenant_id capability now (find_best r tenant_id capability now).1
unfolding find_best
find_best-IsBest r tenant_id capability now =
    best_of r tenant_id capability now (list_by_capability r tenant_id capability now).1
      (mem-list_by_capability r tenant_id capability now)
