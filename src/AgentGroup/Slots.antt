-- ===== src/AgentGroup/Slots.antt =====
-- pkg/agentgroup/agentgroup.go: the weighted slots of a group, written out one by one.
use spectral_cloud.Prelude.{
  ℕ, zero, suc, ◌+◌, ◌-◌, ◌<◌, ◌≤◌, String, ◌≡◌, refl, false, Option, none, some, List, [], ◌∷◌,
  ◌++◌, arith, ltb, if◌then◌else◌, Bool-cases, inl, inr, length, length-append, replicate,
  get_elem?, ap, ◌∙◌, sym,
}
use spectral_cloud.Prelude.Int.{pos, pos_part, half_word, wrap, wrap_in_range, ◌+ℤ◌}
use spectral_cloud.AgentGroup.Group.{Member, member_weight, total_weight, candidate_at}

unfoldable pub share : Member → ℕ
unfolding member_weight
share mem = pos_part (member_weight mem.weight)

-- The agent of each slot.
unfoldable pub slots : List Member → List String
unfolding share
slots [] = []
slots (mem ∷ ms) = replicate (share mem) mem.agent_id ++ slots ms

pos-share : (mem : Member) → (member_weight mem.weight ≡ pos (share mem)) × (0 < share mem)
unfolding share member_weight
pos-share mem = ground arith

pub share_pos : (mem : Member) → 0 < share mem
share_pos mem = (pos-share mem).1

length-replicate : (n : ℕ) (a : String) → length (replicate n a) ≡ n
length-replicate zero a = refl
length-replicate (suc n) a = ap suc (length-replicate n a)

get_elem?-replicate :
    (n d : ℕ) (a : String) (xs : List String)
    → get_elem? (replicate n a ++ xs) d ≡ (if ltb d n then some a else get_elem? xs (d - n))
get_elem?-replicate zero d a xs = ground arith
get_elem?-replicate (suc n) zero a xs = ground arith
get_elem?-replicate (suc n) (suc d) a xs = ground (arith, get_elem?-replicate n d a xs)

pub length-slots :
    (mem : Member) (ms : List Member) → length (slots (mem ∷ ms)) ≡ share mem + length (slots ms)
unfolding slots
length-slots mem ms =
    length-append (replicate (share mem) mem.agent_id) (slots ms)
    ∙ ap (λ n. n + length (slots ms)) (length-replicate (share mem) mem.agent_id)

add_share :
    (t : ℕ) (mem : Member)
    → t + share mem < half_word
    → wrap (pos t +ℤ member_weight mem.weight) ≡ pos (t + share mem)
add_share t mem h =
    let (e, p) = pos-share mem in rw e (ground (arith, wrap_in_range (t + share mem) h))

pub total_weight-slots :
    (t : ℕ) (ms : List Member)
    → t + length (slots ms) < half_word
    → total_weight (pos t) ms ≡ pos (t + length (slots ms))
unfolding total_weight slots
total_weight-slots t [] h = ap pos (omega arith)
total_weight-slots t (mem ∷ ms) h =
    let l = length-slots mem ms in
    let e = add_share t mem (omega (arith, l)) in
    rw (e, total_weight)
      (total_weight-slots (t + share mem) ms (omega (arith, l)) ∙ ap pos (omega (arith, l)))

abbrev pub text_or_empty : Option String → String
text_or_empty none = ""
text_or_empty (some s) = s

not_ltb : (a b : ℕ) → ltb a b ≡ false → b ≤ a
not_ltb a b h = ground arith

pub candidate_at-slots :
    (c d : ℕ) (ms : List Member)
    → c + length (slots ms) < half_word
    → candidate_at (pos (c + d)) (pos c) ms ≡ text_or_empty (get_elem? (slots ms) d)
unfolding candidate_at slots
candidate_at-slots c d [] h = refl
candidate_at-slots c d (mem ∷ ms) h =
    let l = length-slots mem ms in
    let e = add_share c mem (omega (arith, l)) in
    let g = get_elem?-replicate (share mem) d mem.agent_id (slots ms) in
    elim (Bool-cases (ltb d (share mem))) [
      | inl t ↦ rw (e, candidate_at) (rw g (ground (arith, t)))
      | inr t ↦
          let past : c + share mem + (d - share mem) ≡ c + d =
            omega (arith, not_ltb d (share mem) t) in
          let ih = candidate_at-slots (c + share mem) (d - share mem) ms (omega (arith, l)) in
          let at : candidate_at (pos (c + d)) (pos (c + share mem)) ms
              ≡ text_or_empty (get_elem? (slots ms) (d - share mem)) =
            ap (λ n. candidate_at (pos n) (pos (c + share mem)) ms) (sym past) ∙ ih in
          rw (e, candidate_at) (rw g (ground (arith, t, at)))
    ]
