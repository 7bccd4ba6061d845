-- ===== src/AgentGroup/Turns.antt =====
-- pkg/agentgroup/agentgroup.go: whom Next chooses, and a whole round of calls.
use native.Mathlib.Nat.{mod-lt, mod-eq_of_lt}
use spectral_cloud.Prelude.{
  ℕ, zero, suc, ◌+◌, ◌-◌, ◌%◌, ◌<◌, String, ◌≡◌, refl, true, false, Option, none, some, List, [],
  ◌∷◌, arith, eqb, ◌==◌, if◌then◌else◌, Bool-cases, inl, inr, length, get_elem?, ap, ◌∙◌,
}
use spectral_cloud.Prelude.Int.{pos, half_word, word, residue, wrap, wrap_in_range, eqb_ℤ}
use spectral_cloud.Prelude.Dict.{lookup, insert}
use spectral_cloud.Persist.{Host, Codec}
use spectral_cloud.AgentGroup.Group.{
  Member, Group, AllowFn, asked, total_weight, candidate_at, next_from,
}
use spectral_cloud.AgentGroup.{Manager, get, next}
use spectral_cloud.AgentGroup.Slots.{
  slots, share_pos, length-slots, total_weight-slots, candidate_at-slots, text_or_empty,
}
use spectral_cloud.AgentGroup.Rotation.{window, rotate, window-rotate}

-- The first of the agents that has a name and is allowed; the ones before it have been asked.
abbrev pub first_allowed : {C : Type 0} → AllowFn C → List String → C → C × Option String
first_allowed allow [] c = (c, none)
first_allowed allow (a ∷ as_) c =
    let (d, ok) = asked allow c a in
    let skipped = first_allowed allow as_ c in
    let refused = first_allowed allow as_ d in
    if a == "" then skipped else if ok then (d, some a) else refused

-- One round of the loop, with the rest of the loop from either state.
abbrev round :
    {C : Type 0}
    → AllowFn C
    → C
    → String
    → C × Option String
    → (C → C × Option String)
    → C × Option String
round allow c x skipped refused = elim (x == "") [
  | true ↦ skipped
  | false ↦ let (d, ok) = asked allow c x in elim ok [ true ↦ (d, some x) | false ↦ refused d ]
]

round_eq :
    {C : Type 0} (allow : AllowFn C) (c : C) (x : String) (skipped skipped' : C × Option String)
    (refused : C → C × Option String) (refused' : C × Option String)
    → skipped ≡ skipped'
    → refused (asked allow c x).0 ≡ refused'
    → round allow c x skipped refused ≡ (
        if x == ""
        then skipped'
        else if (asked allow c x).1
        then ((asked allow c x).0, some x)
        else refused')
round_eq allow c x skipped skipped' refused refused' e f = elim (Bool-cases (x == "")) [
  | inl t ↦ rw (t, round) e
  | inr t ↦ elim (Bool-cases (asked allow c x).1) [
    | inl u ↦ rw (t, round) (rw (u, round) refl)
    | inr u ↦ rw (t, round) (rw (u, round) f)
  ]
]

next_from-window :
    {C : Type 0} (allow : AllowFn C) (ms : List Member) (start i rounds : ℕ) (c : C)
    → length (slots ms) < half_word
    → 0 < length (slots ms)
    → start + i + rounds < word
    → next_from allow ms start (length (slots ms)) i rounds c
      ≡ first_allowed allow (window (slots ms) start i rounds) c
unfolding next_from
next_from-window allow ms start i zero c small some_slot room = refl
next_from-window allow ms start i (suc rounds) c small some_slot room =
    let n = length (slots ms) in
    let slot : (start + i) % word % n ≡ (start + i) % n =
      ap (λ x. x % n) (mod-eq_of_lt (omega (arith, room))) in
    let low : (start + i) % n < n = mod-lt (start + i) some_slot in
    let at : candidate_at (wrap (pos ((start + i) % word % n))) (pos 0) ms
        ≡ text_or_empty (get_elem? (slots ms) ((start + i) % n)) =
      let plain : wrap (pos ((start + i) % word % n)) ≡ pos (0 + (start + i) % n) =
        ap (λ x. wrap (pos x)) slot
        ∙ wrap_in_range ((start + i) % n) (omega (arith, low))
        ∙ ap pos (omega arith) in
      ap (λ z. candidate_at z (pos 0) ms) plain
      ∙ candidate_at-slots 0 ((start + i) % n) ms (omega arith) in
    ap
      (λ y.
        round allow c y (next_from allow ms start n (i + 1) rounds c)
          (next_from allow ms start n (i + 1) rounds))
      at
    ∙ round_eq allow c (text_or_empty (get_elem? (slots ms) ((start + i) % n))) _ _
        (next_from allow ms start n (i + 1) rounds) _
        (next_from-window allow ms start (i + 1) rounds c small some_slot (omega (arith, room)))
        (next_from-window allow ms start (i + 1) rounds _ small some_slot (omega (arith, room)))

pub slots_pos : (ms : List Member) → 0 < length ms → 0 < length (slots ms)
slots_pos [] h = absurd (omega arith)
slots_pos (mem ∷ ms) h = omega (arith, length-slots mem ms, share_pos mem)

module _ {h : Host} (codec : Codec h Group) where
  -- For a group that is stored and has a member, whose slots (as many
  -- for a member as its weight, one for a weight below 1) are fewer than 2^63, and whose position plus the number of slots is below 2^64: Next asks the
  -- agents of the slots once around, from the position on, and returns the first that is allowed;
  -- the position moves by one whether one is found or not.
  pub next-rotate :
      {C : Type 0} (allow : AllowFn C) (m : Manager h) (c : C) (tenant id : String) (g : Group)
      (k : ℕ)
      → get codec m tenant id ≡ some g
      → lookup id m.rr_index ≡ some k
      → 0 < length g.members
      → length (slots g.members) < half_word
      → k + length (slots g.members) < word
      → next codec allow m c tenant id ≡ (
          let e = slots g.members in
          let (d, chosen) = first_allowed allow (rotate (k % length e) e) c in
          (record m { rr_index = insert id (k + 1) m.rr_index }, d, chosen))
  unfolding next
  next-rotate allow m c tenant id g k e at some_member small room =
      let n = length (slots g.members) in
      let ms = g.members in
      let n = length (slots ms) in
      let total : total_weight (pos 0) ms ≡ pos n =
        total_weight-slots 0 ms (omega arith) ∙ ap pos (omega arith) in
      let some_slot : 0 < n = slots_pos ms some_member in
      let counted : (k + 1) % word ≡ k + 1 = omega (arith, room) in
      let start : ((k + 1) % word + word - 1) % word ≡ k = omega (arith, room) in
      let short : n % word ≡ n = omega (arith, small) in
      let loop : next_from allow ms (((k + 1) % word + word - 1) % word)
            (residue (total_weight (pos 0) ms)) 0 (residue (total_weight (pos 0) ms)) c
          ≡ first_allowed allow (rotate (k % n) (slots ms)) c =
        ap
          (λ z. next_from allow ms (((k + 1) % word + word - 1) % word) (residue z) 0 (residue z) c)
          total
        ∙ ap (λ x. next_from allow ms x (n % word) 0 (n % word) c) start
        ∙ ap (λ x. next_from allow ms k x 0 x c) short
        ∙ next_from-window allow ms k 0 n c small some_slot (omega (arith, room))
        ∙ ap (λ l. first_allowed allow l c) (window-rotate (slots ms) k some_slot) in
      let has : eqb (length ms) 0 ≡ false = ground (arith, some_member) in
      let weighs : eqb_ℤ (total_weight (pos 0) ms) (pos 0) ≡ false =
        ap (λ z. eqb_ℤ z (pos 0)) total ∙ ground (arith, some_slot) in
      rw (e, next) (rw (at, next) (rw (has, next) (rw (weighs, next) (rw loop (rw counted refl)))))
