-- ===== src/Blockchain/Search.antt =====
-- Blocks by position, ranges of blocks, and the search for transactions.
use spectral_cloud.Prelude.Select.{mem-select, select-sublist}
use mathlib.Core.List.{Memᴰ, Sublist}
use spectral_cloud.Prelude.{
  ℕ, ◌+◌, ◌-◌, String, ◌≡◌, ◌↔◌, ◌⊎◌, refl, true, none, List, [], ◌∷◌, arith, eq_iff, if◌then◌else◌,
  Bool-cases, inl, inr, length, drop, ap, get_elem?, get_elem?-drop, get_elem?-take,
  get_elem?_beyond,
}
use spectral_cloud.Prelude.Int.{ℤ, pos, ltb_ℤ, pos_part}
use spectral_cloud.Blockchain.{
  Crypto, Transaction, Block, get_block, block_range, search_transactions, any_matches,
  transaction_matches,
}

module _ (c : Crypto) where
  -- The block at place `i` of `BlockRange(start, end)` is the one that `GetBlock` returns for the
  -- index `max(start, 0) + i`, if that index is below `end`; there is no other.
  pub block_range-get_block :
      (bs : List (Block c)) (start end : ℤ) (i : ℕ)
      → get_elem? (block_range c bs start end) i
        ≡ (let p = pos (pos_part start + i) in if ltb_ℤ p end then get_block c bs p else none)
  unfolding block_range get_block
  block_range-get_block bs start end i = ground (
    arith,
    get_elem?-take (pos_part end - pos_part start) i (drop (pos_part start) bs),
    get_elem?-take (length bs - pos_part start) i (drop (pos_part start) bs),
    get_elem?-drop (pos_part start) i bs,
    get_elem?_beyond bs (pos_part start + i),
  )

  -- A transaction that the filters of a search accept.
  abbrev pub Accepts : String → String → Transaction c → Type 0
  Accepts sender recipient t =
      ((sender ≡ "") ⊎ (t.sender ≡ sender)) × ((recipient ≡ "") ⊎ (t.recipient ≡ recipient))

  transaction_matches_iff :
      (s r : String) (t : Transaction c) → (transaction_matches c s r t ≡ true) ↔ Accepts s r t
  unfolding transaction_matches
  transaction_matches_iff s r t = (
    λ h. ground (arith, eq_iff s "", eq_iff t.sender s, eq_iff r "", eq_iff t.recipient r, h),
    λ h.
        ground (arith, eq_iff s "", eq_iff t.sender s, eq_iff r "", eq_iff t.recipient r, h.0, h.1),
  )

  -- There is a transaction in the list that the filters accept.
  abbrev pub Some : String → String → List (Transaction c) → Type 0
  Some s r ts = (t : Transaction c) × Memᴰ t ts × Accepts s r t

  Some-any_matches :
      (s r : String) (ts : List (Transaction c)) → any_matches c s r ts ≡ true → Some s r ts
  unfolding any_matches
  Some-any_matches s r [] h = cc
  Some-any_matches s r (t ∷ ts) h = elim (Bool-cases (transaction_matches c s r t)) [
    | inl e ↦ (t, Memᴰ.head refl, (transaction_matches_iff s r t).0 e)
    | inr e ↦ let (u, m, k) = Some-any_matches s r ts (ground (arith, e, h)) in (u, Memᴰ.tail m, k)
  ]

  any_of_mem :
      (s r : String) (ts : List (Transaction c)) (t : Transaction c)
      → Memᴰ t ts
      → transaction_matches c s r t ≡ true
      → any_matches c s r ts ≡ true
  unfolding any_matches
  any_of_mem s r [] t m k = elim m [ ]
  any_of_mem s r (u ∷ ts) t (Memᴰ.head e) k = ground (arith, ap (transaction_matches c s r) e, k)
  any_of_mem s r (u ∷ ts) t (Memᴰ.tail m) k = ground (arith, any_of_mem s r ts t m k)

  -- The search returns exactly the blocks that hold a transaction whose sender and recipient are
  -- the given ones, where an empty filter accepts all, and it keeps their order.
  pub search_transactions-mem :
      (bs : List (Block c)) (s r : String)
      → Sublist (search_transactions c bs s r) bs
        × ((b : Block c)
            → Memᴰ b (search_transactions c bs s r) ↔ (Memᴰ b bs × Some s r b.transactions))
  unfolding search_transactions
  search_transactions-mem bs s r =
      let p = λ (b : Block c). any_matches c s r b.transactions in
      (
        select-sublist p bs,
        λ b. (
          λ m. let (n, h) = (mem-select p b bs).0 m in (n, Some-any_matches s r b.transactions h),
          λ m.
              let (t, n, k) = m.1 in
              (mem-select p b bs).1
                (m.0, any_of_mem s r b.transactions t n ((transaction_matches_iff s r t).1 k)),
        ),
      )
