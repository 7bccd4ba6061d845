-- ===== src/Agent/Listed.antt =====
-- pkg/agent/agent.go: which agents `List` returns.
use mathlib.Core.List.{Memᴰ}
use mathlib.Core.Path.{subst}
use spectral_cloud.Prelude.{
  String, ◌≡◌, ◌↔◌, refl, Bool, true, false, not, Option, none, some, List, [], ◌∷◌, ◌++◌, ◌==◌,
  ◌&&◌, ◌||◌, arith, if◌then◌else◌, Option-cases, inl, inr, ap, ◌∙◌, sym,
}
use spectral_cloud.Prelude.Clock.{Time}
use spectral_cloud.Prelude.Dict.{lookup, keys}
use spectral_cloud.Prelude.Sweep.{sweep}
use spectral_cloud.Prelude.Sort.{sort_by}
use spectral_cloud.Prelude.Members.{
  gather, mem_of_mem-gather, mem-gather_of_mem, mem-sort_by, append_assoc, mem-keys,
}
use spectral_cloud.Agent.{Agent, Registry}
use spectral_cloud.Agent.Listing.{list_round, list, older}
use spectral_cloud.Agent.Live.{
  alive_at, SameLive, shown, list_round-SameLive, list_round-shown, append_nil,
}

-- The loop of `List`, from any point: it keeps what is alive, and it adds what is shown.
round_view :
    (tenant_id : String) (now : Time) (r : Registry) (ks : List String) (st : Registry × List Agent)
    → SameLive now r st.0
    → ((sweep (list_round tenant_id now) st ks).1
        ≡ st.1 ++ gather (λ k. shown tenant_id (alive_at now r k)) ks)
      × SameLive now r (sweep (list_round tenant_id now) st ks).0
unfolding sweep
round_view tenant_id now r [] st h = (append_nil st.1, h)
round_view tenant_id now r (k ∷ ks) st h =
    let next : Registry × List Agent = list_round tenant_id now st k in
    let kept : SameLive now r next.0 =
      λ later j le. list_round-SameLive tenant_id now st.0 st.1 k later j le ∙ h later j le in
    let (out, same) = round_view tenant_id now r ks next kept in
    let f : String → List Agent = λ j. shown tenant_id (alive_at now r j) in
    let added : next.1 ≡ st.1 ++ f k =
      list_round-shown tenant_id now st.0 st.1 k
      ∙ ap (λ o. st.1 ++ shown tenant_id o) (h now k (omega arith)) in
    (out ∙ ap (◌++ gather f ks) added ∙ append_assoc st.1 (f k) (gather f ks), same)

pub list-shown :
    (r : Registry) (tenant_id : String) (now : Time)
    → ((list r tenant_id now).1
        ≡ sort_by older (gather (λ k. shown tenant_id (alive_at now r k)) (keys r.agents)))
      × SameLive now r (list r tenant_id now).0
unfolding list
list-shown r tenant_id now =
    let (out, same) = round_view tenant_id now r (keys r.agents) (r, []) (λ later k h. refl) in
    (ap (sort_by older) out, same)

-- An agent that is alive under some key.
abbrev pub Living : Time → Registry → Agent → Type 0
Living now r a = (k : String) × (alive_at now r k ≡ some a)

abbrev pub of : String → Agent → Bool
of tenant_id a = tenant_id == "" || a.tenant_id == tenant_id

mem_unless : (c : Bool) (a b : Agent) → Memᴰ a (if c then [] else b ∷ []) → (c ≡ false) × (a ≡ b)
mem_unless true a b m = elim m [ ]
mem_unless false a b (Memᴰ.head e) = (refl, e)
mem_unless false a b (Memᴰ.tail m) = elim m [ ]

unless_mem : (c : Bool) (a : Agent) → c ≡ false → Memᴰ a (if c then [] else a ∷ [])
unless_mem true a h = absurd (ground arith)
unless_mem false a h = Memᴰ.head refl

mem-shown :
    (tenant_id : String) (a : Agent) (o : Option Agent)
    → Memᴰ a (shown tenant_id o)
    → (o ≡ some a) × (of tenant_id a ≡ true)
mem-shown tenant_id a none m = elim m [ ]
mem-shown tenant_id a (some b) m =
    let (mine, e) = mem_unless (not (tenant_id == "") && not (b.tenant_id == tenant_id)) a b m in
    (ap some (sym e), ap (of tenant_id) e ∙ ground (arith, mine))

shown_mem :
    (tenant_id : String) (a : Agent) → of tenant_id a ≡ true → Memᴰ a (shown tenant_id (some a))
shown_mem tenant_id a h =
    unless_mem (not (tenant_id == "") && not (a.tenant_id == tenant_id)) a (ground (arith, h))

alive_key :
    (now : Time) (r : Registry) (k : String) (a : Agent)
    → alive_at now r k ≡ some a
    → Memᴰ k (keys r.agents)
alive_key now r k a e = elim (Option-cases (lookup k r.agents)) [
  | inl n ↦ absurd (ground (arith, n, e))
  | inr (b, n) ↦ mem-keys k b r.agents n
]

-- `List` returns exactly the agents that are alive under some key and belong to the tenant, or
-- those of every tenant where none is named.
pub mem-list :
    (r : Registry) (tenant_id : String) (now : Time) (a : Agent)
    → Memᴰ a (list r tenant_id now).1 ↔ (Living now r a × (of tenant_id a ≡ true))
mem-list r tenant_id now a =
    let f : String → List Agent = λ k. shown tenant_id (alive_at now r k) in
    let e = (list-shown r tenant_id now).0 in
    let s = mem-sort_by older (gather f (keys r.agents)) in
    (
      λ m.
          let (k, n) = mem_of_mem-gather f (keys r.agents) (s.0 (subst (λ l. Memᴰ a l) e m)) in
          let (o, t) = mem-shown tenant_id a (alive_at now r k) n in ((k, o), t),
      λ ((k, o), t).
          subst (λ l. Memᴰ a l) (sym e)
            (s.1 (
              mem-gather_of_mem f (keys r.agents) (alive_key now r k a o)
                (subst (λ l. Memᴰ a (shown tenant_id l)) (sym o) (shown_mem tenant_id a t)))),
    )
