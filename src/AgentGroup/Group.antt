-- ===== src/AgentGroup/Group.antt =====
-- pkg/agentgroup/agentgroup.go: a group, the weights of its members, and the weighted slots.
use Prim.Native.String.{◌++◌ as str_append}
use spectral_cloud.Prelude.{
  ℕ, zero, suc, ◌+◌, ◌%◌, String, Bool, true, false, Option, none, some, List, [], ◌∷◌, ◌==◌,
  if◌then◌else◌,
}
use spectral_cloud.Prelude.Int.{ℤ, pos, wrap, word, ltb_ℤ, leb_ℤ, ◌+ℤ◌}
use spectral_cloud.Prelude.Clock.{Time}
use spectral_cloud.Prelude.Decimal.{show, scan, strip_prefix}

pub record Member : Type 0 where
  pub agent_id : String
  pub weight : ℤ

pub record Group : Type 0 where
  pub id : String
  pub tenant : String
  pub name : String
  pub members : List Member
  pub created_at : Time

pub record UpdateParams : Type 0 where
  pub name : Option String

abbrev pub group_key_prefix : String
group_key_prefix = "grp_"

unfoldable pub parse_group_num : String → ℕ
unfolding scan strip_prefix
parse_group_num id = elim (strip_prefix "grp-" id) [ none ↦ 0 | some rest ↦ scan rest ]

unfoldable pub group_id_of : ℕ → String
group_id_of n = str_append "grp-" (show n)

-- `none` is the error.
unfoldable pub normalize_weight : ℤ → Option ℤ
normalize_weight weight = if leb_ℤ weight (pos 0) then none else some weight

unfoldable pub member_weight : ℤ → ℤ
member_weight weight = if leb_ℤ weight (pos 0) then pos 1 else weight

-- The loops of `Next` add to an `int`, which wraps.
unfoldable pub total_weight : ℤ → List Member → ℤ
unfolding member_weight wrap
total_weight total [] = total
total_weight total (mem ∷ ms) = total_weight (wrap (total +ℤ member_weight mem.weight)) ms

unfoldable pub candidate_at : ℤ → ℤ → List Member → String
unfolding member_weight wrap
candidate_at slot cursor [] = ""
candidate_at slot cursor (mem ∷ ms) =
    let next = wrap (cursor +ℤ member_weight mem.weight) in
    let later = candidate_at slot next ms in if ltb_ℤ slot next then mem.agent_id else later

unfoldable pub is_member : String → List Member → Bool
is_member agent_id [] = false
is_member agent_id (mem ∷ ms) =
    let rest = is_member agent_id ms in if mem.agent_id == agent_id then true else rest

unfoldable pub reweigh : String → ℤ → List Member → List Member
reweigh agent_id w [] = []
reweigh agent_id w (mem ∷ ms) =
    let rest = reweigh agent_id w ms in
    if mem.agent_id == agent_id then record mem { weight = w } ∷ ms else mem ∷ rest

-- `allowFn` changes a state of its own, the circuit breakers; `none` is nil.
abbrev pub AllowFn : Type 0 → Type 0
AllowFn C = Option (C → String → C × Bool)

abbrev pub asked : {C : Type 0} → AllowFn C → C → String → C × Bool
asked none c agent_id = (c, true)
asked (some allow) c agent_id = allow c agent_id

-- The rounds of the loop of `Next` that are left, the next of them being round `i`.
unfoldable pub next_from :
    {C : Type 0} → AllowFn C → List Member → ℕ → ℕ → ℕ → ℕ → C → C × Option String
unfolding candidate_at wrap
next_from allow members start n i zero c = (c, none)
next_from allow members start n i (suc rounds) c =
    let candidate = candidate_at (wrap (pos ((start + i) % word % n))) (pos 0) members in
    elim (candidate == "") [
      | true ↦ next_from allow members start n (i + 1) rounds c
      | false ↦
          let (d, ok) = asked allow c candidate in
          elim ok [
            | true ↦ (d, some candidate)
            | false ↦ next_from allow members start n (i + 1) rounds d
          ]
    ]
