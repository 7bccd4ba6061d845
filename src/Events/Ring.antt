-- ===== src/Events/Ring.antt =====
-- pkg/events/events.go: the ring of past events.
use native.Mathlib.Nat.{mod-lt, mod-eq_of_lt, mod-add-mod, mod-eq-sub-mod}
use spectral_cloud.Prelude.{
  ℕ, zero, suc, ◌+◌, ◌-◌, ◌%◌, ◌<◌, ◌≤◌, ◌≡◌, ◌≢◌, ◌⊎◌, refl, true, some, List, [], ◌∷◌, ◌++◌,
  arith, Bool-cases, inl, inr, length, ap, ◌∙◌, sym, ltb, map, get_elem?, set, drop, length-set,
  length-append,
}
use spectral_cloud.Prelude.Int.{pos, half_word, incr, incr_in_range}
use spectral_cloud.Events.{Event, Broker, remember, slots}

-- Two numbers less than `n` apart have different residues.
residues_differ : (n j d : ℕ) → 0 < d → d < n → (j + d) % n ≢ j % n
residues_differ n j d p h e =
    let low : j % n < n = mod-lt j (omega arith) in
    let sum : (j + d) % n ≡ (j % n + d) % n = sym (mod-add-mod j n d) in
    elim (Bool-cases (ltb (j % n + d) n)) [
      | inl l ↦
          let small : (j % n + d) % n ≡ j % n + d = mod-eq_of_lt (ground (arith, l)) in
          absurd (omega (arith, e, sum, small, p))
      | inr l ↦
          let big : n ≤ j % n + d = ground (arith, l) in
          let small : (j % n + d) % n ≡ j % n + d - n =
            mod-eq-sub-mod big ∙ mod-eq_of_lt (omega (arith, low, h, big)) in
          absurd (omega (arith, e, sum, small, h, big))
    ]

-- The slot that `History` reads for the i-th event from the end.
slot_back : (n c i : ℕ) → i < n → i < c → (c % n + n - 1 - i) % n ≡ (c - 1 - i) % n
slot_back n c i h k =
    let big : n ≤ c - 1 - i + n = omega arith in
    ap (λ x. x % n) {x = c % n + n - 1 - i} {y = c % n + (n - 1 - i)} (omega (arith, h))
    ∙ mod-add-mod c n (n - 1 - i)
    ∙ ap (λ x. x % n) {x = c + (n - 1 - i)} {y = c - 1 - i + n} (omega (arith, h, k))
    ∙ mod-eq-sub-mod big
    ∙ ap (λ x. x % n) {x = c - 1 - i + n - n} (omega arith)

module _ {ℓ} {A : Type ℓ} where
  get_elem?-set_same :
      (xs : List A) (i : ℕ) (v : A) → i < length xs → get_elem? (set xs i v) i ≡ some v
  get_elem?-set_same [] i v h = absurd (omega arith)
  get_elem?-set_same (x ∷ xs) zero v h = refl
  get_elem?-set_same (x ∷ xs) (suc i) v h = get_elem?-set_same xs i v (omega arith)

  get_elem?-set_ne :
      (xs : List A) (i k : ℕ) (v : A) → i ≢ k → get_elem? (set xs i v) k ≡ get_elem? xs k
  get_elem?-set_ne [] i k v h = refl
  get_elem?-set_ne (x ∷ xs) zero zero v h = absurd (h refl)
  get_elem?-set_ne (x ∷ xs) zero (suc k) v h = refl
  get_elem?-set_ne (x ∷ xs) (suc i) zero v h = refl
  get_elem?-set_ne (x ∷ xs) (suc i) (suc k) v h = get_elem?-set_ne xs i k v (λ e. h (ap suc e))

  get_elem?-snoc :
      (xs : List A) (e : A) (j : ℕ) (x : A)
      → get_elem? (xs ++ e ∷ []) j ≡ some x
      → (get_elem? xs j ≡ some x × (j < length xs)) ⊎ ((j ≡ length xs) × (some e ≡ some x))
  get_elem?-snoc [] e zero x h = inr (refl, h)
  get_elem?-snoc [] e (suc j) x h = absurd (ground (arith, h))
  get_elem?-snoc (y ∷ xs) e zero x h = inl (h, omega arith)
  get_elem?-snoc (y ∷ xs) e (suc j) x h = elim (get_elem?-snoc xs e j x h) [
    | inl (a, b) ↦ inl (a, omega (arith, b))
    | inr (a, b) ↦ inr (ap suc a, b)
  ]

-- The ring after the events `xs`, oldest first.
pub record Ring {D : Type 0} (n : ℕ) (b : Broker D) (xs : List (Event D)) : Type 0 where
  pub size : b.hist_max ≡ n
  pub room : length b.hist_buf ≡ n
  pub head : b.hist_head ≡ length xs % n
  pub count : b.hist_count ≡ pos (length xs)
  pub held :
      (j : ℕ) (x : Event D)
      → get_elem? xs j ≡ some x
      → length xs ≤ j + n
      → get_elem? b.hist_buf (j % n) ≡ some (some x)

module _ {D : Type 0} where
  pub remember-Ring :
      (n : ℕ) (b : Broker D) (xs : List (Event D)) (e : Event D)
      → 0 < n
      → length xs + 1 < half_word
      → Ring n b xs
      → Ring n (remember b e) (xs ++ e ∷ [])
  unfolding remember
  remember-Ring n b xs e some_slot room r =
      let c = length xs in
      let on : ltb 0 b.hist_max ≡ true = ground (arith, r.size, some_slot) in
      let longer : length (xs ++ e ∷ []) ≡ c + 1 = length-append xs (e ∷ []) in
      rw (on, remember)
        (record {
          size = r.size;
          room = length-set b.hist_buf b.hist_head (some e) ∙ r.room;
          head =
              ap (λ h. (h + 1) % b.hist_max) r.head
              ∙ ap (λ m. (c % n + 1) % m) r.size
              ∙ mod-add-mod c n 1
              ∙ ap (λ k. k % n) (sym longer);
          count = ap incr r.count ∙ incr_in_range c room ∙ ap pos (sym longer);
          held = λ j x at recent. elim (get_elem?-snoc xs e j x at) [
            | inl (before, low) ↦
                let gap : (c - j) < n = omega (arith, recent, longer, low) in
                let apart : c % n ≢ j % n = λ same.
                  residues_differ n j (c - j) (omega (arith, low)) gap
                    (ap (λ k. k % n) {x = j + (c - j)} (omega (arith, low)) ∙ same) in
                ap (λ h. get_elem? (set b.hist_buf h (some e)) (j % n)) r.head
                ∙ get_elem?-set_ne b.hist_buf (c % n) (j % n) (some e) apart
                ∙ r.held j x before (omega (arith, recent, longer))
            | inr (here, same) ↦
                let low : c % n < n = mod-lt c some_slot in
                ap (λ h. get_elem? (set b.hist_buf h (some e)) (j % n)) r.head
                ∙ ap (λ k. get_elem? (set b.hist_buf (c % n) (some e)) (k % n)) here
                ∙ get_elem?-set_same b.hist_buf (c % n) (some e) (omega (arith, low, r.room))
                ∙ ap some same
          ];
        })

  get_elem?_below :
      (xs : List (Event D)) (i : ℕ)
      → i < length xs
      → (x : Event D) × (get_elem? xs i ≡ some x) × (drop i xs ≡ x ∷ drop (suc i) xs)
  get_elem?_below [] i h = absurd (omega arith)
  get_elem?_below (x ∷ xs) zero h = (x, refl, refl)
  get_elem?_below (x ∷ xs) (suc i) h = get_elem?_below xs i (omega arith)

  drop_all : (k : ℕ) (xs : List (Event D)) → k ≡ length xs → drop k xs ≡ []
  drop_all k [] h = drop_none k
    where
      drop_none : (k : ℕ) → drop {A = Event D} k [] ≡ []
      drop_none zero = refl
      drop_none (suc k) = refl
  drop_all zero (x ∷ xs) h = absurd (omega (arith, h))
  drop_all (suc k) (x ∷ xs) h = drop_all k xs (omega (arith, h))

  -- What `History` reads of the ring is the end of the list.
  pub slots-Ring :
      (n : ℕ) (b : Broker D) (xs : List (Event D)) (k : ℕ)
      → Ring n b xs
      → k ≤ n
      → k ≤ length xs
      → slots b k ≡ map (λ x. some (some x)) (drop (length xs - k) xs)
  unfolding slots
  slots-Ring n b xs zero r small few =
      ap (map (λ x. some (some x))) (sym (drop_all (length xs - 0) xs (omega arith)))
  slots-Ring n b xs (suc i) r small few =
      let c = length xs in
      let (x, at, rest) = get_elem?_below xs (c - 1 - i) (omega (arith, few)) in
      let place : (b.hist_head + b.hist_max - 1 - i) % b.hist_max ≡ (c - 1 - i) % n =
        ap (λ m. (b.hist_head + m - 1 - i) % m) r.size
        ∙ ap (λ h. (h + n - 1 - i) % n) r.head
        ∙ slot_back n c i (omega (arith, small)) (omega (arith, few)) in
      let first : get_elem? b.hist_buf ((b.hist_head + b.hist_max - 1 - i) % b.hist_max)
          ≡ some (some x) =
        ap (get_elem? b.hist_buf) place ∙ r.held (c - 1 - i) x at (omega (arith, small, few)) in
      let later : suc (c - 1 - i) ≡ c - i = omega (arith, few) in
      let from : c - suc i ≡ c - 1 - i = omega arith in
      ap (λ o. o ∷ slots b i) first
      ∙ ap (λ l. some (some x) ∷ l)
          (slots-Ring n b xs i r (omega (arith, small)) (omega (arith, few))
            ∙ ap (λ k. map (λ y. some (some y)) (drop k xs)) (sym later))
      ∙ sym
          (ap (λ k. map (λ y. some (some y)) (drop k xs)) from ∙ ap (map (λ y. some (some y))) rest)
