-- ===== src/AgentGroup/Rotation.antt =====
-- pkg/agentgroup/agentgroup.go: the slots that the loop of Next looks at, in its order.
use native.Mathlib.Nat.{mod-lt, mod-eq_of_lt, mod-add-mod, mod-eq-sub-mod}
use spectral_cloud.Prelude.{
  ℕ, zero, suc, ◌+◌, ◌-◌, ◌%◌, ◌<◌, ◌≤◌, String, ◌≡◌, refl, some, List, [], ◌∷◌, ◌++◌, arith,
  length, get_elem?, take, drop, ap, ◌∙◌, sym,
}
use spectral_cloud.AgentGroup.Slots.{text_or_empty}

-- The texts of the slots (start + i) % n, for `rounds` values of `i`.
abbrev pub window : List String → ℕ → ℕ → ℕ → List String
window e start i zero = []
window e start i (suc rounds) =
    text_or_empty (get_elem? e ((start + i) % length e)) ∷ window e start (i + 1) rounds

window-append :
    (e : List String) (start i n a b : ℕ)
    → n ≡ a + b
    → window e start i n ≡ window e start i a ++ window e start (i + a) b
window-append e start i n zero b h =
    let same : n ≡ b = omega arith in
    let here : i ≡ i + 0 = omega arith in
    ap (window e start i) same ∙ ap (λ j. window e start j b) here
window-append e start i zero (suc a) b h = absurd (omega arith)
window-append e start i (suc n) (suc a) b h =
    let there : i + 1 + a ≡ i + suc a = omega arith in
    let slot = text_or_empty (get_elem? e ((start + i) % length e)) in
    ap (λ l. slot ∷ l)
      (window-append e start (i + 1) n a b (omega arith)
        ∙ ap (λ j. window e start (i + 1) a ++ window e start j b) there)

drop_at :
    (p : ℕ) (e : List String)
    → p < length e
    → (y : String) × (get_elem? e p ≡ some y) × (drop p e ≡ y ∷ drop (suc p) e)
drop_at p [] h = absurd (omega arith)
drop_at zero (x ∷ e) h = (x, refl, refl)
drop_at (suc p) (x ∷ e) h = drop_at p e (omega arith)

-- Where the slots do not wrap around, they are a stretch of the list.
window-stretch :
    (e : List String) (start i p k : ℕ)
    → ((j : ℕ) → j < k → (start + (i + j)) % length e ≡ p + j)
    → p + k ≤ length e
    → window e start i k ≡ take k (drop p e)
window-stretch e start i p zero at h = refl
window-stretch e start i p (suc k) at h =
    let (y, there, rest) = drop_at p e (omega arith) in
    let zero_plus : start + (i + 0) ≡ start + i = omega arith in
    let slot : (start + i) % length e ≡ p =
      ap (λ x. x % length e) (sym zero_plus) ∙ at 0 (omega arith) ∙ omega arith in
    let ih =
      window-stretch e start (i + 1) (suc p) k
        (λ j b. shift j ∙ at (suc j) (omega arith) ∙ omega arith) (omega arith) in
    ap (λ x. text_or_empty (get_elem? e x) ∷ window e start (i + 1) k) slot
    ∙ ap (λ o. text_or_empty o ∷ window e start (i + 1) k) there
    ∙ ap (λ l. y ∷ l) ih
    ∙ sym (ap (take (suc k)) rest)
  where
    shift : (j : ℕ) → (start + (i + 1 + j)) % length e ≡ (start + (i + suc j)) % length e
    shift j =
        let same : start + (i + 1 + j) ≡ start + (i + suc j) = omega arith in
        ap (λ x. x % length e) same

low_slot : (n start i : ℕ) → 0 < n → start % n + i < n → (start + i) % n ≡ start % n + i
low_slot n start i p h = sym (mod-add-mod start n i) ∙ mod-eq_of_lt h

high_slot :
    (n start i : ℕ)
    → 0 < n
    → n ≤ start % n + i
    → start % n + i < n + n
    → (start + i) % n ≡ start % n + i - n
high_slot n start i p l h =
    sym (mod-add-mod start n i) ∙ mod-eq-sub-mod l ∙ mod-eq_of_lt (omega arith)

take_all : (k : ℕ) (e : List String) → length e ≤ k → take k e ≡ e
take_all zero [] h = refl
take_all zero (x ∷ e) h = absurd (omega arith)
take_all (suc k) [] h = refl
take_all (suc k) (x ∷ e) h = ap (λ l. x ∷ l) (take_all k e (omega arith))

take_rest : (r k : ℕ) (e : List String) → length e ≤ r + k → take k (drop r e) ≡ drop r e
take_rest zero k e h = take_all k e (omega arith)
take_rest (suc r) zero [] h = refl
take_rest (suc r) (suc k) [] h = refl
take_rest (suc r) k (x ∷ e) h = take_rest r k e (omega arith)

abbrev pub rotate : ℕ → List String → List String
rotate k e = drop k e ++ take k e

-- As many rounds as there are slots look at each of them, from the position on.
pub window-rotate :
    (e : List String) (start : ℕ)
    → 0 < length e
    → window e start 0 (length e) ≡ rotate (start % length e) e
window-rotate e start p =
    let n = length e in
    let r = start % n in
    let low : r < n = mod-lt start p in
    let plain : (j : ℕ) → j < n - r → (start + (0 + j)) % n ≡ r + j =
      λ j b. ap (λ x. x % n) {y = start + j} (omega arith) ∙ low_slot n start j p (omega arith) in
    let wrapped : (j : ℕ) → j < r → (start + (n - r + j)) % n ≡ 0 + j =
      λ j b. high_slot n start (n - r + j) p (omega arith) (omega arith) ∙ omega arith in
    let first = window-stretch e start 0 r (n - r) plain (omega arith) in
    let second = window-stretch e start (n - r) 0 r wrapped (omega arith) in
    let here : 0 + (n - r) ≡ n - r = omega arith in
    window-append e start 0 n (n - r) r (omega (arith, low))
    ∙ ap (λ l. l ++ window e start (0 + (n - r)) r)
        (first ∙ take_rest r (n - r) e (omega (arith, low)))
    ∙ ap (λ j. drop r e ++ window e start j r) here
    ∙ ap (λ l. drop r e ++ l) second
