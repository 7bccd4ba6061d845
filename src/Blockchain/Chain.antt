-- ===== src/Blockchain/Chain.antt =====
-- Intact chains: what `VerifyChain` decides and what the operations keep.
use spectral_cloud.Prelude.{
  ℕ, suc, ◌+◌, ◌<◌, String, ◌≡◌, ◌↔◌, ◌⊎◌, refl, true, false, Option, none, some, List, [], ◌∷◌,
  arith, eq_iff, Bool-cases, inl, inr, length, take, ap, ◌∙◌,
}
use spectral_cloud.Prelude.Int.{pos, negsuc}
use spectral_cloud.Blockchain.{Crypto, Block, verify, follows, verify_from, verify_chain}

module _ (c : Crypto) where
  abbrev pub Follows : Option String → Block c → Type 0
  Follows none b = Unit
  Follows (some h) b = b.previous_hash ≡ h

  -- Every block has the hash of its contents, and names the hash of the block before it.
  abbrev pub LinkedFrom : Option String → List (Block c) → Type 0
  LinkedFrom p [] = Unit
  LinkedFrom p (b ∷ bs) = (verify c b ≡ true) × Follows p b × LinkedFrom (some b.hash) bs

  abbrev pub IsIntact : List (Block c) → Type 0
  IsIntact bs = LinkedFrom none bs

  -- Every block has its position for an index.
  abbrev pub IndexedFrom : ℕ → List (Block c) → Type 0
  IndexedFrom i [] = Unit
  IndexedFrom i (b ∷ bs) = (b.index ≡ pos i) × IndexedFrom (suc i) bs

  follows_iff : (p : Option String) (b : Block c) → (follows c p b ≡ true) ↔ Follows p b
  unfolding follows
  follows_iff none b = (λ _. tt, λ _. refl)
  follows_iff (some h) b = eq_iff b.previous_hash h

  -- What a failed walk says of the blocks up to the one that it reports.
  abbrev Broken : Option String → List (Block c) → ℕ → Type 0
  Broken p bs k = LinkedFrom p (take k bs) × (¬ LinkedFrom p (take (suc k) bs)) × (k < length bs)

  abbrev Walk : ℕ → Option String → List (Block c) → Type 0
  Walk i p bs =
      ((verify_from c i p bs ≡ (negsuc 0, true)) × LinkedFrom p bs)
      ⊎ ((k : ℕ) × (verify_from c i p bs ≡ (pos (i + k), false)) × Broken p bs k)

  Walk-verified :
      (i : ℕ) (p : Option String) (b : Block c) (bs : List (Block c))
      → verify c b ≡ true
      → follows c p b ≡ true
      → Walk (suc i) (some b.hash) bs
      → Walk i p (b ∷ bs)
  unfolding verify_from
  Walk-verified i p b bs v f (inl (e, l)) = inl (ground (arith, e), (v, (follows_iff p b).0 f, l))
  Walk-verified i p b bs v f (inr (k, e, (good, bad, short))) =
      inr
        (suc k, ground (arith, e), ((v, (follows_iff p b).0 f, good), (λ l. bad l.2), omega arith))

  Walk-stopped :
      (i : ℕ) (p : Option String) (b : Block c) (bs : List (Block c))
      → verify_from c i p (b ∷ bs) ≡ (pos i, false)
      → ¬ ((verify c b ≡ true) × Follows p b)
      → Walk i p (b ∷ bs)
  Walk-stopped i p b bs e bad = inr (0, ground (arith, e), (tt, (λ l. bad (l.0, l.1)), omega arith))

  verify_from-Walk : (i : ℕ) (p : Option String) (bs : List (Block c)) → Walk i p bs
  unfolding verify_from
  verify_from-Walk i p [] = inl (refl, tt)
  verify_from-Walk i p (b ∷ bs) = elim (Bool-cases (verify c b)) [
    | inr e ↦ Walk-stopped i p b bs (ground (arith, e)) (λ h. cc (h.0))
    | inl e ↦ elim (Bool-cases (follows c p b)) [
      | inr f ↦ Walk-stopped i p b bs (ground (arith, e, f)) (λ h. cc ((follows_iff p b).1 h.1))
      | inl f ↦ Walk-verified i p b bs e f (verify_from-Walk (suc i) (some b.hash) bs)
    ]
  ]

  -- `VerifyChain` returns (-1, true) on an intact chain. On any other it returns false with a
  -- position `k` of the chain such that the first `k` blocks are intact and the first `k + 1` are not.
  pub verify_chain-decides :
      (bs : List (Block c))
      → ((verify_chain c bs ≡ (negsuc 0, true)) × IsIntact bs)
        ⊎ ((k : ℕ) × (verify_chain c bs ≡ (pos k, false))
            × (k < length bs)
            × IsIntact (take k bs)
            × (¬ IsIntact (take (suc k) bs)))
  unfolding verify_chain
  verify_chain-decides bs = elim (verify_from-Walk 0 none bs) [
    | inl (e, l) ↦ inl (e, l)
    | inr (k, e, (good, bad, short)) ↦
        inr (k, e ∙ ap (λ n. (pos n, false)) (omega arith), short, good, bad)
  ]
