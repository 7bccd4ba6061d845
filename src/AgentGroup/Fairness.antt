-- ===== src/AgentGroup/Fairness.antt =====
-- pkg/agentgroup/agentgroup.go: a whole round of calls of Next.
use mathlib.Core.List.{Perm}
use mathlib.Core.List.Permᴰ.{append_comm}
use mathlib.Core.Path.{subst}
use native.Mathlib.Nat.{mod-lt}
use spectral_cloud.Prelude.{
  ℕ, zero, suc, ◌+◌, ◌%◌, ◌<◌, String, ◌≡◌, refl, false, Option, none, some, List, [], ◌∷◌, ◌++◌,
  arith, ◌==◌, eq_refl, length, replicate, get_elem?, take, drop, All, map, ap, ◌∙◌,
}
use spectral_cloud.Prelude.Int.{half_word, word}
use spectral_cloud.Prelude.Dict.{lookup, insert, lookup-insert}
use spectral_cloud.Persist.{Host, Codec}
use spectral_cloud.AgentGroup.Group.{Member, Group}
use spectral_cloud.AgentGroup.{Manager, get, next}
use spectral_cloud.AgentGroup.Slots.{slots, share, text_or_empty}
use spectral_cloud.AgentGroup.Rotation.{window, rotate, window-rotate}
use spectral_cloud.AgentGroup.Turns.{first_allowed, next-rotate, slots_pos}

abbrev Named : List String → Type 0
Named = All (λ a. a == "" ≡ false)

Named-replicate :
    (n : ℕ) (a : String) (es : List String)
    → a == "" ≡ false
    → Named es
    → Named (replicate n a ++ es)
Named-replicate zero a es h hs = hs
Named-replicate (suc n) a es h hs = (h, Named-replicate n a es h hs)

slots-Named : (ms : List Member) → All (λ mem. mem.agent_id == "" ≡ false) ms → Named (slots ms)
unfolding slots
slots-Named [] h = tt
slots-Named (mem ∷ ms) h =
    Named-replicate (share mem) mem.agent_id (slots ms) h.0 (slots-Named ms h.1)

first_allowed-drop :
    (p : ℕ) (e tail : List String)
    → Named e
    → p < length e
    → first_allowed none (drop p e ++ tail) tt ≡ (tt, some (text_or_empty (get_elem? e p)))
first_allowed-drop p [] tail h low = absurd (omega arith)
first_allowed-drop zero (x ∷ e) tail h low = rw (h.0, first_allowed) refl
first_allowed-drop (suc p) (x ∷ e) tail h low = first_allowed-drop p e tail h.1 (omega arith)

window-suc : (e : List String) (k i r : ℕ) → window e (k + 1) i r ≡ window e k (i + 1) r
window-suc e k i zero = refl
window-suc e k i (suc r) =
    let same : k + 1 + i ≡ k + (i + 1) = omega arith in
    ap (λ x. text_or_empty (get_elem? e (x % length e)) ∷ window e (k + 1) (i + 1) r) same
    ∙ ap (λ l. text_or_empty (get_elem? e ((k + (i + 1)) % length e)) ∷ l)
        (window-suc e k (i + 1) r)

take-drop : (k : ℕ) (e : List String) → take k e ++ drop k e ≡ e
take-drop zero e = refl
take-drop (suc k) [] = refl
take-drop (suc k) (x ∷ e) = ap (λ l. x ∷ l) (take-drop k e)

drop_take_perm : (k : ℕ) (e : List String) → Perm (rotate k e) e
drop_take_perm k e =
    subst (Perm (rotate k e)) (take-drop k e) ∣ append_comm (drop k e) (take k e) ∣₁

module _ {h : Host} (codec : Codec h Group) where
  -- Calls of `Next` without a filter, one after the other, and what they return.
  abbrev pub calls : ℕ → Manager h → String → String → Manager h × List (Option String)
  calls zero m tenant id = (m, [])
  calls (suc n) m tenant id =
      let (next_m, c, chosen) = next codec none m tt tenant id in
      let (last, others) = calls n next_m tenant id in (last, chosen ∷ others)

  got_turned :
      (m : Manager h) (tenant id : String) (g : Group) (k : ℕ)
      → get codec m tenant id ≡ some g
      → get codec (record m { rr_index = insert id k m.rr_index }) tenant id ≡ some g
  unfolding get
  got_turned m tenant id g k e = e

  calls-window :
      (r : ℕ) (m : Manager h) (tenant id : String) (g : Group) (k : ℕ)
      → get codec m tenant id ≡ some g
      → lookup id m.rr_index ≡ some k
      → 0 < length g.members
      → All (λ mem. mem.agent_id == "" ≡ false) g.members
      → length (slots g.members) < half_word
      → k + r + length (slots g.members) < word
      → (calls r m tenant id).1 ≡ map some (window (slots g.members) k 0 r)
  calls-window zero m tenant id g k e at some_member named small room = refl
  calls-window (suc r) m tenant id g k e at some_member named small room =
      let ms = g.members in
      let n = length (slots ms) in
      let one =
        next-rotate codec none m tt tenant id g k e at some_member small (omega (arith, room)) in
      let some_slot : 0 < n = slots_pos ms some_member in
      let pick =
        first_allowed-drop (k % n) (slots ms) (take (k % n) (slots ms)) (slots-Named ms named)
          (mod-lt k some_slot) in
      let m1 : Manager h = record m { rr_index = insert id (k + 1) m.rr_index } in
      let whole : next codec none m tt tenant id
          ≡ (m1, tt, some (text_or_empty (get_elem? (slots ms) (k % n)))) =
        one ∙ ap (λ d. (m1, d.0, d.1)) pick in
      let ih =
        calls-window r m1 tenant id g (k + 1) (got_turned m tenant id g (k + 1) e)
          (ground (arith, lookup-insert id id (k + 1) m.rr_index, eq_refl id)) some_member named
          small (omega (arith, room)) in
      let here : k ≡ k + 0 = omega arith in
      let x = some (text_or_empty (get_elem? (slots ms) (k % n))) in
      ap (λ t. t.2 ∷ (calls r t.0 tenant id).1) whole
      ∙ ap (λ l. x ∷ l) (ih ∙ ap (map some) (window-suc (slots ms) k 0 r))
      ∙ ap
          (λ y.
            some (text_or_empty (get_elem? (slots ms) (y % n)))
            ∷ map some (window (slots ms) k 1 r))
          here

  -- On a group with named members, `Next` without a filter goes once around the slots in as many
  -- calls as there are slots: it returns every member as often as its weight says. The sum of the
  -- weights is an `int`, and the position and twice that sum a `uint64`.
  pub calls-rotate :
      (m : Manager h) (tenant id : String) (g : Group) (k : ℕ)
      → get codec m tenant id ≡ some g
      → lookup id m.rr_index ≡ some k
      → 0 < length g.members
      → All (λ mem. mem.agent_id == "" ≡ false) g.members
      → length (slots g.members) < half_word
      → k + length (slots g.members) + length (slots g.members) < word
      → let e = slots g.members in
        ((calls (length e) m tenant id).1 ≡ map some (rotate (k % length e) e))
        × Perm (rotate (k % length e) e) e
  calls-rotate m tenant id g k e at some_member named small room =
      let n = length (slots g.members) in
      (
        calls-window n m tenant id g k e at some_member named small room
            ∙ ap (map some) (window-rotate (slots g.members) k (slots_pos g.members some_member)),
        drop_take_perm (k % n) (slots g.members),
      )
