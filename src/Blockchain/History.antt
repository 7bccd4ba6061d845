-- ===== src/Blockchain/History.antt =====
-- pkg/blockchain/blockchain.go: chains after histories of additions and removals.
use spectral_cloud.Prelude.{
  ◌+◌, ◌-◌, ◌<◌, ◌≤◌, String, ◌≡◌, refl, true, Option, none, some, List, [], ◌∷◌, ◌++◌, arith,
  eq_refl, Bool-cases, inl, inr, length, length-append, length-init_of, get_last?, init_of,
  get_last?-append, init_of-append, ap, ◌∙◌, leb,
}
use spectral_cloud.Prelude.Int.{pos, half_word, incr, incr_in_range}
use spectral_cloud.Blockchain.{
  Crypto, Transaction, Block, create_genesis_block, new_blockchain, verify, sign_block, next_block,
  add_block, add_signed_block, remove_last_block,
}
use spectral_cloud.Blockchain.Chain.{IsIntact, IndexedFrom}
use spectral_cloud.Blockchain.Linked.{
  last_hash-get_last?, LinkedFrom-append, LinkedFrom-init_of, IndexedFrom-append,
  IndexedFrom-init_of, IndexedFrom-get_last?,
}

module _ (c : Crypto) where
  -- A chain that is not empty, is intact, and is numbered from 0.
  pub record IsGood (bs : List (Block c)) : Type 0 where
    pub intact : IsIntact c bs
    pub indexed : IndexedFrom c 0 bs
    pub last : Block c
    pub at_end : get_last? bs ≡ some last

  verify-next_block :
      (b : Block c) (now : String) (ts : List (Transaction c))
      → verify c (next_block c b now ts) ≡ true
  unfolding verify next_block
  verify-next_block b now ts = eq_refl _

  verify-sign_block : (b : Block c) (key : String) → verify c (sign_block c b key).0 ≡ verify c b
  unfolding verify sign_block
  verify-sign_block b key = ground arith

  append-IsGood :
      (bs : List (Block c)) (b : Block c)
      → (g : IsGood bs) → verify c b ≡ true
      → b.previous_hash ≡ g.last.hash
      → b.index ≡ pos (length bs)
      → IsGood (bs ++ b ∷ [])
  append-IsGood bs b g v f i = record {
    intact =
        LinkedFrom-append c none bs b g.intact v
          (rw (last_hash-get_last? c none bs g.last g.at_end) f);
    indexed = IndexedFrom-append c 0 bs b g.indexed (i ∙ ap pos (omega arith));
    last = b;
    at_end = get_last?-append bs b;
  }

  add_block_lem :
      (bs : List (Block c)) (now : String) (ts : List (Transaction c)) (b : Block c)
      → get_last? bs ≡ some b
      → add_block c bs now ts ≡ some (bs ++ next_block c b now ts ∷ [], next_block c b now ts)
  unfolding add_block
  add_block_lem bs now ts b e = rw (e, add_block)

  positive_length : (bs : List (Block c)) (b : Block c) → get_last? bs ≡ some b → 0 < length bs
  positive_length [] b e = cc
  positive_length (x ∷ bs) b e = omega arith

  index-next_block :
      (bs : List (Block c)) (now : String) (ts : List (Transaction c)) (g : IsGood bs)
      → length bs < half_word
      → (next_block c g.last now ts).index ≡ pos (length bs)
  unfolding next_block
  index-next_block bs now ts g h =
      ap incr (IndexedFrom-get_last? c 0 bs g.last g.indexed g.at_end)
      ∙ incr_in_range (0 + (length bs - 1)) (omega (arith, positive_length bs g.last g.at_end))
      ∙ ap pos (omega (arith, positive_length bs g.last g.at_end))

  pub add_signed_block_lem :
      (bs : List (Block c)) (now : String) (ts : List (Transaction c)) (key : String) (b : Block c)
      → get_last? bs ≡ some b
      → let s = (sign_block c (next_block c b now ts) key).0 in
        add_signed_block c bs now ts key ≡ some (bs ++ s ∷ [], s)
  unfolding add_signed_block
  add_signed_block_lem bs now ts key b e =
      rw (add_block_lem bs now ts b e, add_signed_block)
        (rw (init_of-append bs (next_block c b now ts)) (unfold sign_block in ground arith))

  get_last?-init_of :
      (bs : List (Block c)) → 1 < length bs → (b : Block c) × (get_last? (init_of bs) ≡ some b)
  get_last?-init_of [] h = absurd (omega arith)
  get_last?-init_of (x ∷ []) h = absurd (omega arith)
  get_last?-init_of (x ∷ y ∷ []) h = (x, refl)
  get_last?-init_of (x ∷ y ∷ z ∷ bs) h = get_last?-init_of (y ∷ z ∷ bs) (omega arith)

  remove_last_block-IsGood : (bs : List (Block c)) → IsGood bs → IsGood (remove_last_block c bs)
  unfolding remove_last_block
  remove_last_block-IsGood bs g = elim (Bool-cases (leb (length bs) 1)) [
    | inl short ↦ rw short g
    | inr long ↦
        let (b, e) = get_last?-init_of bs (ground arith) in
        rw long (record {
          intact = LinkedFrom-init_of c none bs g.intact;
          indexed = IndexedFrom-init_of c 0 bs g.indexed;
          last = b;
          at_end = e;
        })
  ]

  -- The calls that change a chain; a call that panics has no result.
  pub data Call : Type 0 where
    adds : String → List (Transaction c) → Call
    signs : String → List (Transaction c) → String → Call
    removes : Call

  unfoldable pub step : List (Block c) → Call → Option (List (Block c))
  step bs (adds now ts) = elim (add_block c bs now ts) [ none ↦ none | some (bs', _) ↦ some bs' ]
  step bs (signs now ts key) = elim (add_signed_block c bs now ts key) [
    | none ↦ none
    | some (bs', _) ↦ some bs'
  ]
  step bs removes = some (remove_last_block c bs)

  unfoldable pub run : List (Block c) → List Call → Option (List (Block c))
  unfolding step
  run bs [] = some bs
  run bs (x ∷ xs) = elim (step bs x) [ none ↦ none | some bs' ↦ run bs' xs ]

  -- A step has a result, which is good and at most one block longer.
  abbrev Steps : List (Block c) → Option (List (Block c)) → Type 0
  Steps bs r = (bs' : List (Block c)) × (r ≡ some bs') × IsGood bs' × (length bs' ≤ length bs + 1)

  length-snoc : (bs : List (Block c)) (b : Block c) → length (bs ++ b ∷ []) ≤ length bs + 1
  length-snoc bs b = omega (arith, length-append bs (b ∷ []))

  length-remove_last_block : (bs : List (Block c)) → length (remove_last_block c bs) ≤ length bs + 1
  unfolding remove_last_block
  length-remove_last_block bs = ground (arith, length-init_of bs)

  step-Steps :
      (bs : List (Block c)) (x : Call) → IsGood bs → length bs < half_word → Steps bs (step bs x)
  unfolding step
  step-Steps bs (adds now ts) g h = (
    bs ++ next_block c g.last now ts ∷ [],
    rw (add_block_lem bs now ts g.last g.at_end, step),
    append-IsGood bs _ g (verify-next_block g.last now ts) (unfold next_block in refl)
        (index-next_block bs now ts g h),
    length-snoc bs _,
  )
  step-Steps bs (signs now ts key) g h =
      let b = next_block c g.last now ts in
      (
        bs ++ (sign_block c b key).0 ∷ [],
        rw (add_signed_block_lem bs now ts key g.last g.at_end, step),
        append-IsGood bs _ g (verify-sign_block b key ∙ verify-next_block g.last now ts)
            (unfold sign_block next_block in ground arith)
            (unfold sign_block in ground (arith, index-next_block bs now ts g h)),
        length-snoc bs _,
      )
  step-Steps bs removes g h =
      (remove_last_block c bs, refl, remove_last_block-IsGood bs g, length-remove_last_block bs)

  run-IsGood :
      (bs : List (Block c)) (xs : List Call)
      → IsGood bs
      → length bs + length xs ≤ half_word
      → (bs' : List (Block c)) × (run bs xs ≡ some bs') × IsGood bs'
  unfolding run
  run-IsGood bs [] g h = (bs, refl, g)
  run-IsGood bs (x ∷ xs) g h =
      let (mid, e, g', short) = step-Steps bs x g (omega arith) in
      let (bs', e', g'') = run-IsGood mid xs g' (omega arith) in (bs', rw (e, run) e', g'')

  new_blockchain-IsGood : (now : String) → IsGood (new_blockchain c now)
  unfolding new_blockchain create_genesis_block verify
  new_blockchain-IsGood now = record {
    intact = (eq_refl _, tt, tt);
    indexed = (refl, tt);
    last = create_genesis_block c now;
    at_end = refl;
  }

  -- From a new chain any history of fewer than 2^63 additions, signed or not, and removals runs
  -- through. The chain that it leaves is not empty, every block has the hash of its contents and
  -- names the hash of the block before it, and the index of every block is its position.
  pub run-new_blockchain-IsGood :
      (now : String) (xs : List Call)
      → length xs < half_word
      → (bs : List (Block c)) × (run (new_blockchain c now) xs ≡ some bs) × IsGood bs
  run-new_blockchain-IsGood now xs h =
      run-IsGood (new_blockchain c now) xs (new_blockchain-IsGood now) (length_new now xs h)
    where
      length_new :
          (now : String) (xs : List Call)
          → length xs < half_word
          → length (new_blockchain c now) + length xs ≤ half_word
      length_new now xs h = unfold new_blockchain in omega arith

  -- Removing the last block undoes an addition, signed or not, to a chain that is not empty.
  pub remove_last_block-add_signed_block :
      (bs : List (Block c)) (now : String) (ts : List (Transaction c)) (key : String) (b : Block c)
      → get_last? bs ≡ some b
      → (bs' : List (Block c)) × (s : Block c) × (add_signed_block c bs now ts key ≡ some (bs', s))
        × (get_last? bs' ≡ some s)
        × (remove_last_block c bs' ≡ bs)
  remove_last_block-add_signed_block bs now ts key b e =
      let s = (sign_block c (next_block c b now ts) key).0 in
      (
        bs ++ s ∷ [],
        s,
        add_signed_block_lem bs now ts key b e,
        get_last?-append bs s,
        unfold remove_last_block in
            ground (arith, length-append bs (s ∷ []), init_of-append bs s, positive_length bs b e),
      )
