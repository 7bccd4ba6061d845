-- ===== src/AgentGroup.antt =====
-- pkg/agentgroup/agentgroup.go: groups of agents. The time of a call is an argument.
pub mod Group
pub mod Slots
pub mod Rotation
pub mod Turns
pub mod Fairness
pub mod Examples
use Prim.Native.String.{◌++◌ as str_append}
use spectral_cloud.Prelude.{
  ℕ, zero, suc, ◌+◌, ◌-◌, ◌%◌, String, Bool, true, false, not, Option, none, some, List, [], ◌∷◌,
  ◌++◌, ◌==◌, ◌&&◌, ◌||◌, ltb, eqb, if◌then◌else◌, length, select,
}
use spectral_cloud.Prelude.Int.{ℤ, pos, word, residue, eqb_ℤ}
use spectral_cloud.Prelude.Clock.{Time}
use spectral_cloud.Prelude.Dict.{Dict, lookup, insert, remove, values}
use spectral_cloud.Prelude.Sort.{sort_by}
use spectral_cloud.Prelude.Bytes.{text_less}
use spectral_cloud.Persist.{Host, Codec}
use Group.{
  Member, Group as AgentGroup, UpdateParams, group_key_prefix, parse_group_num, group_id_of,
  normalize_weight, member_weight, total_weight, AllowFn, next_from, is_member, reweigh,
}

-- `rr_index` holds the position of each group. `db` is `none` for a manager without a store.
pub record Manager (h : Host) : Type 0 where
  pub groups : Dict AgentGroup
  pub counter : ℕ
  pub rr_index : Dict ℕ
  pub db : Option h.Db

pub data GroupReply : Type 0 where
  not_found : GroupReply
  rejected : GroupReply
  updated : AgentGroup → GroupReply

pub data MemberError : Type 0 where
  bad_weight : MemberError
  group_not_found : MemberError
  member_not_found : MemberError

module _ {h : Host} (codec : Codec h AgentGroup) where
  unfoldable pub new : Manager h
  new = record { groups = []; counter = 0; rr_index = []; db = none }

  unfoldable pub new_with_store : h.Db → Manager h
  new_with_store d = record { groups = []; counter = 0; rr_index = []; db = some d }

  unfoldable pub persist : Manager h → AgentGroup → Manager h
  persist m g = elim m.db [
    | none ↦ m
    | some d ↦ elim (codec.encode g) [
      | none ↦ m
      | some v ↦ record m { db = some (h.put g.tenant (str_append group_key_prefix g.id) v d) }
    ]
  ]

  unfoldable pub unpersist : Manager h → AgentGroup → Manager h
  unpersist m g = elim m.db [
    | none ↦ m
    | some d ↦ record m { db = some (h.delete g.tenant (str_append group_key_prefix g.id) d) }
  ]

  unfoldable pub store_group : Manager h → String → AgentGroup → Manager h
  unfolding persist
  store_group m id g = persist (record m { groups = insert id g m.groups }) g

  unfoldable pub decode_all : List h.Data → List AgentGroup
  decode_all [] = []
  decode_all (v ∷ vs) =
      let rest = decode_all vs in elim (codec.decode v) [ none ↦ rest | some g ↦ g ∷ rest ]

  unfoldable pub restore : List AgentGroup → Manager h → Manager h
  unfolding parse_group_num
  restore [] m = m
  restore (g ∷ gs) m =
      let n = parse_group_num g.id in
      restore gs (record m {
        groups = insert g.id g m.groups;
        counter = if ltb m.counter n then n else m.counter;
        rr_index = insert g.id 0 m.rr_index;
      })

  unfoldable pub load_from_store : Manager h → String → Manager h × Option ℕ
  unfolding restore decode_all
  load_from_store m tenant = elim m.db [
    | none ↦ (m, some 0)
    | some d ↦ elim (h.scan tenant group_key_prefix d) [
      | none ↦ (m, none)
      | some vs ↦ (restore (decode_all vs) m, some (length (decode_all vs)))
    ]
  ]

  unfoldable pub create : Manager h → String → String → Time → Manager h × Option AgentGroup
  unfolding group_id_of store_group
  create m tenant name now =
      if name == ""
      then (m, none)
      else (let n = (m.counter + 1) % word in
          let g : AgentGroup = record {
            id = group_id_of n;
            tenant = tenant;
            name = name;
            members = [];
            created_at = now;
          } in
          (
            store_group (record m { counter = n; rr_index = insert (group_id_of n) 0 m.rr_index })
                (group_id_of n) g,
            some g,
          ))

  unfoldable pub get : Manager h → String → String → Option AgentGroup
  get m tenant id = elim (lookup id m.groups) [
    | none ↦ none
    | some g ↦ if g.tenant == tenant then some g else none
  ]

  unfoldable pub update : Manager h → String → String → UpdateParams → Manager h × GroupReply
  unfolding get store_group
  update m tenant id params = elim (get m tenant id) [
    | none ↦ (m, not_found)
    | some g ↦ elim params.name [
      | none ↦ (store_group m id g, updated g)
      | some name ↦
          if name == ""
          then (m, rejected)
          else (let r : AgentGroup = record g { name = name } in (store_group m id r, updated r))
    ]
  ]

  unfoldable pub delete : Manager h → String → String → Manager h × Bool
  unfolding get unpersist
  delete m tenant id = elim (get m tenant id) [
    | none ↦ (m, false)
    | some g ↦
        let u = unpersist m g in
        (record u { groups = remove id u.groups; rr_index = remove id u.rr_index }, true)
  ]

  unfoldable pub list : Manager h → String → List AgentGroup
  unfolding sort_by text_less
  list m tenant =
      sort_by (λ a b. text_less a.name b.name)
        (select (λ g. tenant == "" || g.tenant == tenant) (values m.groups))

  unfoldable pub add_member_with_weight :
      Manager h → String → String → String → ℤ → Manager h × Option MemberError
  unfolding normalize_weight get is_member store_group
  add_member_with_weight m tenant group_id agent_id weight = elim (normalize_weight weight) [
    | none ↦ (m, some bad_weight)
    | some w ↦ elim (get m tenant group_id) [
      | none ↦ (m, some group_not_found)
      | some g ↦ if is_member agent_id g.members then (m, none) else (
        store_group m group_id
            (record g { members = g.members ++ (record { agent_id = agent_id; weight = w } ∷ []) }),
        none,
      )
    ]
  ]

  unfoldable pub add_member : Manager h → String → String → String → Manager h × Option MemberError
  unfolding add_member_with_weight
  add_member m tenant group_id agent_id = add_member_with_weight m tenant group_id agent_id (pos 1)

  unfoldable pub update_member_weight :
      Manager h → String → String → String → ℤ → Manager h × GroupReply
  unfolding normalize_weight get is_member reweigh store_group
  update_member_weight m tenant group_id agent_id weight = elim (normalize_weight weight) [
    | none ↦ (m, rejected)
    | some w ↦ elim (get m tenant group_id) [
      | none ↦ (m, not_found)
      | some g ↦
          if is_member agent_id g.members
          then (let r : AgentGroup = record g { members = reweigh agent_id w g.members } in
              (store_group m group_id r, updated r))
          else (m, not_found)
    ]
  ]

  -- Without such a member the filtered slice has the members unchanged in the same array.
  unfoldable pub remove_member :
      Manager h → String → String → String → Manager h × Option MemberError
  unfolding get is_member store_group
  remove_member m tenant group_id agent_id = elim (get m tenant group_id) [
    | none ↦ (m, some group_not_found)
    | some g ↦
        if is_member agent_id g.members
        then (
          store_group m group_id
              (record g { members = select (λ mem. not (mem.agent_id == agent_id)) g.members }),
          none,
        )
        else (m, some member_not_found)
  ]

  -- The position is counted up before the loop, and the loop starts where it was.
  unfoldable pub next :
      {C : Type 0} → AllowFn C → Manager h → C → String → String → Manager h × C × Option String
  unfolding get total_weight next_from
  next allow m c tenant group_id = elim (get m tenant group_id) [
    | none ↦ (m, c, none)
    | some g ↦ elim (lookup group_id m.rr_index) [
      | none ↦ (m, c, none)
      | some index ↦
          let total = total_weight (pos 0) g.members in
          if eqb (length g.members) 0 || eqb_ℤ total (pos 0)
          then (m, c, none)
          else (let counted = (index + 1) % word in
              let start = (counted + word - 1) % word in
              let (d, chosen) =
                next_from allow g.members start (residue total) 0 (residue total) c in
              (record m { rr_index = insert group_id counted m.rr_index }, d, chosen))
    ]
  ]
